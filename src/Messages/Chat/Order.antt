-- ===== src/Messages/Chat/Order.antt =====
-- A message and its ACK in both orders of arrival.
use remoteterm_meshcore.Prelude.{
  ℕ, ◌≡◌, refl, sym, ap, ◌∙◌, inl, inr, true, false, Option, none, some, List, [], ◌∷◌, ◌++◌, arith,
  max, nat_eq, list_eq, Option-cases, eq_refl, contains, or_else,
}
use remoteterm_meshcore.Prelude.JsMap
use remoteterm_meshcore.Prelude.JsMap.{JsMap}
use remoteterm_meshcore.Data.{Message, MessagePath, Conversation}
use remoteterm_meshcore.Messages.Key.{get_message_content_key}
use remoteterm_meshcore.Messages.Cache
use remoteterm_meshcore.Messages.Cache.{has_id, update_by_id, acked_message}
use remoteterm_meshcore.Messages.Cache.Ack.{acked_message-key}
use remoteterm_meshcore.Messages.PendingAck.{
  PendingAckUpdate, merge_pending_ack, set_pending_ack, apply_pending_ack,
}
use remoteterm_meshcore.Messages.PendingAck.Laws.{IsBounded, set_pending_ack_lem}
use remoteterm_meshcore.Messages.Append.{is_active_conversation_message}
use remoteterm_meshcore.Messages.Chat.{Chat, observe_message, receive_message_ack}
use remoteterm_meshcore.Messages.Chat.Laws.{observe_message_new}

has_id-append :
    (k : ℕ) (ms : List Message) (m : Message) → m.id ≡ k → has_id k (ms ++ m ∷ []) ≡ true
unfolding has_id
has_id-append k [] m e = ground (arith, e)
has_id-append k (x ∷ ms) m e = ground (arith, has_id-append k ms m e)

update_by_id_last :
    (f : Message → Message) (ms : List Message) (m : Message)
    → has_id m.id ms ≡ false
    → update_by_id m.id f (ms ++ m ∷ []) ≡ ms ++ f m ∷ []
unfolding has_id update_by_id
update_by_id_last f [] m h = rw (eq_refl m.id) refl
update_by_id_last f (x ∷ ms) m h = ground (arith, update_by_id_last f ms m)

apply_none :
    (pending : JsMap ℕ PendingAckUpdate) (m : Message)
    → JsMap.get m.id pending ≡ none
    → apply_pending_ack pending m ≡ (pending, m)
unfolding apply_pending_ack
apply_none pending m h = rw (h, apply_pending_ack) refl

module _ (ack_count : ℕ) (paths : Option (List MessagePath)) (packet_id : Option (Option ℕ)) where
  is_active-acked_message :
      (o : Option Conversation) (m : Message)
      → is_active_conversation_message o (acked_message ack_count paths packet_id m)
        ≡ is_active_conversation_message o m
  unfolding is_active_conversation_message acked_message
  is_active-acked_message none m = refl
  is_active-acked_message (some c) m = refl

  id-acked_message : (m : Message) → (acked_message ack_count paths packet_id m).id ≡ m.id
  unfolding acked_message
  id-acked_message m = refl

  -- On a message without paths, an ACK that was buffered does what an ACK does to a shown message.
  acked_message_buffered :
      (m : Message)
      → m.paths ≡ none
      → record m {
        acked = max m.acked ack_count;
        paths = or_else paths m.paths;
        packet_id = or_else packet_id m.packet_id;
      }
        ≡ acked_message ack_count paths packet_id m
  unfolding acked_message
  acked_message_buffered m h = elim (Option-cases paths) [
    | inl absent ↦ rw absent refl
    | inr (ps, given) ↦ rw (given, h) (ground arith)
  ]

module _ (chat : Chat) (msg : Message) (ack_count : ℕ) (paths : Option (List MessagePath))
    (packet_id : Option (Option ℕ)) (bounded : IsBounded chat.pending_acks)
    (active : is_active_conversation_message chat.active msg ≡ true)
    (live : chat.has_newer_messages ≡ false)
    (unseen : contains chat.seen_content (get_message_content_key msg) ≡ false)
    (absent : has_id msg.id chat.messages ≡ false)
    (no_ack : JsMap.get msg.id chat.pending_acks ≡ none) (no_paths : msg.paths ≡ none) where
  ack_last :
      (receive_message_ack msg.id ack_count paths packet_id (observe_message msg chat).0).messages
      ≡ chat.messages ++ acked_message ack_count paths packet_id msg ∷ []
  unfolding receive_message_ack
  ack_last =
      rw (observed, has_id-append msg.id chat.messages msg refl)
        (update_by_id_last (acked_message ack_count paths packet_id) chat.messages msg absent)
    where
      observed : (observe_message msg chat).0.messages ≡ chat.messages ++ msg ∷ []
      observed =
          observe_message_new msg chat chat.pending_acks msg
            (apply_none chat.pending_acks msg no_ack) (apply_none chat.pending_acks msg no_ack)
            active live unseen absent

  buffered : JsMap ℕ PendingAckUpdate
  buffered = set_pending_ack chat.pending_acks msg.id ack_count paths packet_id

  buffered_lem :
      JsMap.get msg.id buffered
      ≡ some (record { ack_count = ack_count; paths = paths; packet_id = packet_id })
  unfolding buffered merge_pending_ack
  buffered_lem =
      (set_pending_ack_lem chat.pending_acks bounded msg.id ack_count paths packet_id).1
      ∙ rw no_ack refl

  applied :
      apply_pending_ack buffered msg
      ≡ (JsMap.delete msg.id buffered, acked_message ack_count paths packet_id msg)
  unfolding apply_pending_ack
  applied =
      rw (buffered_lem, apply_pending_ack)
        (ap (λ m. (JsMap.delete msg.id buffered, m))
          (acked_message_buffered ack_count paths packet_id msg no_paths))

  applied_again :
      apply_pending_ack (JsMap.delete msg.id buffered) (acked_message ack_count paths packet_id msg)
      ≡ (JsMap.delete msg.id buffered, acked_message ack_count paths packet_id msg)
  applied_again =
      apply_none (JsMap.delete msg.id buffered) (acked_message ack_count paths packet_id msg) (
        rw (id-acked_message ack_count paths packet_id msg)
          (JsMap.get-delete msg.id msg.id buffered ∙ rw (eq_refl msg.id) refl))

  ack_first :
      (observe_message msg (receive_message_ack msg.id ack_count paths packet_id chat)).0.messages
      ≡ chat.messages ++ acked_message ack_count paths packet_id msg ∷ []
  unfolding receive_message_ack buffered
  ack_first = rw absent (
      observe_message_new msg
        (record chat {
          pending_acks = set_pending_ack chat.pending_acks msg.id ack_count paths packet_id;
          cache = Cache.update_ack msg.id ack_count paths packet_id chat.cache;
        })
        (JsMap.delete msg.id buffered) (acked_message ack_count paths packet_id msg) applied
        applied_again (is_active-acked_message ack_count paths packet_id chat.active msg ∙ active)
        live (rw (acked_message-key 0 ack_count paths packet_id msg) unseen)
        (rw (id-acked_message ack_count paths packet_id msg) absent))

  -- For a message without paths of the open conversation that is new to it by id and by content
  -- key, and for which no ACK is buffered, while the newest rows are shown and the buffer is
  -- within its limit, the rows shown are the same whether the message or its ACK comes first.
  pub ack_order :
      (observe_message msg (receive_message_ack msg.id ack_count paths packet_id chat)).0.messages
      ≡ (receive_message_ack msg.id ack_count paths packet_id (observe_message msg chat).0).messages
  ack_order = ack_first ∙ sym ack_last
