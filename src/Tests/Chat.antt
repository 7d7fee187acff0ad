-- ===== src/Tests/Chat.antt =====
-- The theorems about what a conversation shows, at concrete messages.
use remoteterm_meshcore.Prelude.{
  ℕ, ◌≡◌, ◌↔◌, refl, true, false, ◌||◌, none, some, List, [], ◌∷◌, codes, arith, All, nat_eq,
  list_eq, option_eq, contains, insert, IsDistinct, insert_all, to_string, keep,
}
use remoteterm_meshcore.Prelude.JsMap
use remoteterm_meshcore.Prelude.JsMap.{JsMap}
use remoteterm_meshcore.Data.{Message, contact}
use remoteterm_meshcore.Messages.Key.{get_message_content_key, content_keys, ids}
use remoteterm_meshcore.Messages.Cache.{has_id}
use remoteterm_meshcore.Messages.Reconcile.{
  index_by_id, differs, needs_update, older_messages, reconcile_conversation_messages,
}
use remoteterm_meshcore.Messages.Reconcile.Laws.{reconcile_twice, reconcile_ids}
use remoteterm_meshcore.Messages.Reconcile.Shown.{IsShown, reconcile_none_iff}
use remoteterm_meshcore.Messages.PendingAck.{
  PendingAckUpdate, merge_pending_ack, set_pending_ack, apply_pending_ack,
}
use remoteterm_meshcore.Messages.PendingAck.Laws.{
  IsBounded, packet_id-merge_pending_ack, apply_pending_ack_early,
}
use remoteterm_meshcore.Messages.Append.{append_unique_messages, is_active_conversation_message}
use remoteterm_meshcore.Messages.Append.Laws.{append_unique-IsDistinct, append_unique_complete}
use remoteterm_meshcore.Messages.Chat.{Chat, observe_message, receive_message_ack}
use remoteterm_meshcore.Messages.Chat.Laws.{IsConsistent, observe_message-IsConsistent}
use remoteterm_meshcore.Messages.Chat.Order.{ack_order}
use remoteterm_meshcore.Tests.Messages.{hello, reply, a_path}

abbrev acked_reply : Message
acked_reply = record reply { acked = 1 }

abbrev pub page : List Message
page = acked_reply ∷ []

reconcile_twice_example : reconcile_conversation_messages (acked_reply ∷ hello ∷ []) page ≡ none
unfolding contains reconcile_conversation_messages index_by_id differs needs_update older_messages
    JsMap.get JsMap.set insert_all insert keep
reconcile_twice_example =
    reconcile_twice (hello ∷ reply ∷ []) page (acked_reply ∷ hello ∷ []) (refl, tt) refl

reconcile_none_iff_example :
    (reconcile_conversation_messages (hello ∷ reply ∷ []) page ≡ none)
    ↔ All (IsShown (hello ∷ reply ∷ [])) page
reconcile_none_iff_example = reconcile_none_iff (hello ∷ reply ∷ []) page

reconcile_ids_example :
    IsDistinct (ids (acked_reply ∷ hello ∷ []))
    × ((k : ℕ)
        → contains (ids (acked_reply ∷ hello ∷ [])) k
          ≡ (contains (ids page) k || contains (ids (hello ∷ reply ∷ [])) k))
unfolding contains reconcile_conversation_messages index_by_id differs needs_update older_messages
    JsMap.get JsMap.set insert_all insert keep
reconcile_ids_example =
    reconcile_ids (hello ∷ reply ∷ []) page (acked_reply ∷ hello ∷ []) (refl, (refl, tt)) (refl, tt)
      refl

abbrev buffered : PendingAckUpdate
buffered = record { ack_count = 1; paths = some []; packet_id = some (some 7) }

packet_id-merge_pending_ack_example :
    (merge_pending_ack (some buffered) 1 (some (a_path ∷ [])) none).packet_id ≡ none
packet_id-merge_pending_ack_example =
    packet_id-merge_pending_ack buffered 1 (some (a_path ∷ [])) none

abbrev pending_acks : JsMap ℕ PendingAckUpdate
pending_acks = (2, buffered) ∷ []

pending_acks-IsBounded : IsBounded pending_acks
unfolding JsMap.get
pending_acks-IsBounded = record { distinct = (refl, tt); bounded = omega arith }

held_for_reply : JsMap.get 2 pending_acks ≡ some buffered
unfolding JsMap.get
held_for_reply = refl

apply_pending_ack_early_example :
    let result = apply_pending_ack (set_pending_ack pending_acks 2 3 none none) reply in
    (result.1 ≡ record reply { acked = 3; paths = some []; packet_id = some (some 7) })
    × (JsMap.has 2 result.0 ≡ false)
apply_pending_ack_early_example =
    apply_pending_ack_early pending_acks pending_acks-IsBounded reply 3 none none (some buffered)
      held_for_reply refl

append_unique-IsDistinct_example :
    IsDistinct (ids (append_unique_messages (hello ∷ []) (reply ∷ hello ∷ [])))
    × IsDistinct (content_keys (append_unique_messages (hello ∷ []) (reply ∷ hello ∷ [])))
unfolding contains
append_unique-IsDistinct_example =
    append_unique-IsDistinct (hello ∷ []) (reply ∷ hello ∷ []) (refl, tt) (refl, tt)

append_unique_complete_example :
    All
      (λ m.
        (contains (ids (append_unique_messages (hello ∷ []) page)) m.id
          || contains
              (content_keys (append_unique_messages (hello ∷ []) page))
              (get_message_content_key m))
        ≡ true)
      page
append_unique_complete_example = append_unique_complete (hello ∷ []) page

abbrev pub chat : Chat
chat = record {
  active =
      some (record { kind = contact; id = codes "ab"; name = codes "Al"; map_focus_key = none });
  messages = hello ∷ [];
  messages_loading = false;
  loading_older = false;
  loading_newer = false;
  has_older_messages = false;
  has_newer_messages = false;
  seen_content = content_keys (hello ∷ []);
  pending_acks = [];
  cache = [];
  fetching_conversation_id = some (codes "ab");
  latest_reconcile_request_id = 0;
  pending_reconnect_reconcile = false;
}

chat-IsConsistent : IsConsistent chat
unfolding contains
chat-IsConsistent = record { distinct = (refl, tt); seen = λ key h. h }

observe_message-IsConsistent_example : IsConsistent (observe_message reply chat).0
observe_message-IsConsistent_example = observe_message-IsConsistent reply chat chat-IsConsistent

ack_order_example :
    (observe_message reply (receive_message_ack 2 1 none none chat)).0.messages
    ≡ (receive_message_ack 2 1 none none (observe_message reply chat).0).messages
unfolding contains has_id is_active_conversation_message get_message_content_key JsMap.get to_string
ack_order_example =
    ack_order chat reply 1 none none (record { distinct = tt; bounded = omega arith }) refl refl
      refl refl refl refl
