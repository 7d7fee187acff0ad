-- ===== src/Messages/Chat/Laws.antt =====
-- The open conversation under observed messages, ACKs and answers of the backend.
use remoteterm_meshcore.Prelude.{
  ℕ, ◌≡◌, ◌≢◌, refl, sym, ◌∙◌, inl, inr, Bool, true, false, not, ◌&&◌, ◌||◌, some, List, [], ◌∷◌,
  ◌++◌, Text, arith, nat_eq, list_eq, option_eq, Bool-cases, ◌==◌, eq_iff, contains,
  contains-append, contains-insert, contains-insert_all_nil, IsDistinct, IsDistinct-concat,
}
use remoteterm_meshcore.Prelude.JsMap.{JsMap}
use remoteterm_meshcore.Data.{Message}
use remoteterm_meshcore.Messages.Key.{
  get_message_content_key, content_keys, ids, ids-append, content_keys-append,
}
use remoteterm_meshcore.Messages.Cache.{has_id}
use remoteterm_meshcore.Messages.PendingAck.{PendingAckUpdate, apply_pending_ack}
use remoteterm_meshcore.Messages.Append.{is_active_conversation_message}
use remoteterm_meshcore.Messages.Chat.{
  Chat, receive_latest, receive_reconcile, receive_older, receive_newer, grow_seen_content,
  sync_seen_content, append_active_message_if_new, observe_message,
}

-- The rows shown have no id twice, and the key set has the key of each of them.
pub record IsConsistent (chat : Chat) : Type 0 where
  pub distinct : IsDistinct (ids chat.messages)
  pub seen :
      (key : Text)
      → contains (content_keys chat.messages) key ≡ true
      → contains chat.seen_content key ≡ true

-- An answer of the backend for a conversation that is no longer the one being fetched changes no
-- message that is shown, no buffered ACK, no key and no cache entry.
pub stale_answers_ignored :
    (chat : Chat) (show_loading : Bool) (conversation_id : Text) (request_id : ℕ)
    (fetched : List Message)
    → chat.fetching_conversation_id ≢ some conversation_id
    → (receive_reconcile conversation_id request_id fetched chat ≡ chat)
      × (receive_latest show_loading conversation_id fetched chat
          ≡ record chat { messages_loading = not show_loading && chat.messages_loading })
      × (receive_older conversation_id fetched chat ≡ record chat { loading_older = false })
      × (receive_newer conversation_id fetched chat
          ≡ (record chat { loading_newer = false }, false))
unfolding receive_latest receive_reconcile receive_older receive_newer
stale_answers_ignored chat show_loading conversation_id request_id fetched h =
    ground (arith, eq_iff chat.fetching_conversation_id (some conversation_id))

contains-ids : (k : ℕ) (ms : List Message) → has_id k ms ≡ contains (ids ms) k
unfolding has_id contains
contains-ids k [] = refl
contains-ids k (m ∷ ms) = ground (arith, contains-ids k ms)

seen-grow :
    (key k : Text) (seen : List Text) (messages : List Message)
    → ((k : Text) → contains (content_keys messages) k ≡ true → contains seen k ≡ true)
    → (key == k || contains (content_keys messages) k) ≡ true
    → contains (grow_seen_content key seen messages) k ≡ true
seen-grow key k seen messages h p = ground (
  arith,
  h k,
  contains-insert key k seen,
  contains-insert key k (sync_seen_content messages),
  contains-insert_all_nil (content_keys messages) k,
)

contains_last :
    (k : Text) (m : Message) (ms : List Message)
    → contains (content_keys (ms ++ m ∷ [])) k
      ≡ (contains (content_keys ms) k || (get_message_content_key m == k || false))
unfolding contains
contains_last k m ms =
    rw (content_keys-append ms (m ∷ []))
      (contains-append (content_keys ms) (get_message_content_key m ∷ []) k)

last_key :
    (k : Text) (m : Message) (ms : List Message)
    → contains (content_keys (ms ++ m ∷ [])) k ≡ true
    → (get_message_content_key m == k || contains (content_keys ms) k) ≡ true
last_key k m ms p = ground (arith, contains_last k m ms, p)

append_active-IsConsistent :
    (msg : Message) (chat : Chat)
    → IsConsistent chat
    → IsConsistent (append_active_message_if_new msg chat).0
unfolding append_active_message_if_new
append_active-IsConsistent msg chat h =
    let m : Message = (apply_pending_ack chat.pending_acks msg).1 in
    let key : Text = get_message_content_key m in
    elim (Bool-cases (contains chat.seen_content key)) [
      | inl old ↦ rw old (record { distinct = h.distinct; seen = h.seen })
      | inr new ↦ elim (Bool-cases (has_id m.id chat.messages)) [
        | inl shown ↦
            rw (new, shown)
              (record {
                distinct = h.distinct;
                seen = λ k p.
                    seen-grow key k chat.seen_content chat.messages h.seen (ground (arith, p));
              })
        | inr absent ↦
            rw (new, absent)
              (record {
                distinct = rw (ids-append chat.messages (m ∷ [])) (
                    IsDistinct-concat (ids chat.messages) m.id h.distinct
                      (sym (contains-ids m.id chat.messages) ∙ absent));
                seen = λ k p.
                    seen-grow key k chat.seen_content chat.messages h.seen
                      (last_key k m chat.messages p);
              })
      ]
    ]

-- Observing a message keeps the rows free of repeated ids, and their keys in the key set.
pub observe_message-IsConsistent :
    (msg : Message) (chat : Chat) → IsConsistent chat → IsConsistent (observe_message msg chat).0
unfolding observe_message
observe_message-IsConsistent msg chat h =
    elim (Bool-cases
      (is_active_conversation_message chat.active (apply_pending_ack chat.pending_acks msg).1)) [
        | inl active ↦ elim (Bool-cases chat.has_newer_messages) [
          | inl jump ↦ rw (active, jump) (record { distinct = h.distinct; seen = h.seen })
          | inr live ↦
              rw (active, live)
                (append_active-IsConsistent (apply_pending_ack chat.pending_acks msg).1
                  (record chat {
                    pending_acks = (apply_pending_ack chat.pending_acks msg).0;
                    has_newer_messages = false;
                  })
                  (record { distinct = h.distinct; seen = h.seen }))
        ]
        | inr other ↦ rw other (record { distinct = h.distinct; seen = h.seen })
      ]

-- A message that is neither shown nor counted as seen is appended, with its buffered ACK.
pub observe_message_new :
    (msg : Message) (chat : Chat) (pending : JsMap ℕ PendingAckUpdate) (m : Message)
    → apply_pending_ack chat.pending_acks msg ≡ (pending, m)
    → apply_pending_ack pending m ≡ (pending, m)
    → is_active_conversation_message chat.active m ≡ true
    → chat.has_newer_messages ≡ false
    → contains chat.seen_content (get_message_content_key m) ≡ false
    → has_id m.id chat.messages ≡ false
    → (observe_message msg chat).0.messages ≡ chat.messages ++ m ∷ []
unfolding observe_message append_active_message_if_new
observe_message_new msg chat pending m e same a n c i = rw (e, a, n, same, c, i) refl
