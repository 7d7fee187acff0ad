-- ===== src/Messages/Chat.antt =====
-- The hook `useConversationMessages` of frontend/src/hooks/useConversationMessages.ts as a state and
-- its handlers. Of a fetch the handler of its answer is modelled, not the request. The refs that
-- mirror React state (`messagesRef`, `hasNewerMessagesRef`, ...) are one with it: React has committed
-- a handler's updates before the next one runs. Abort controllers, failed requests, toasts and
-- logging are left out.
pub mod Laws
pub mod Order
use remoteterm_meshcore.Prelude.{
  ℕ, ◌+◌, Bool, true, false, not, ◌&&◌, ◌||◌, Option, none, some, List, [], ◌∷◌, ◌++◌, Text, length,
  ltb, leb, get_or, nat_eq, list_eq, option_eq, if◌then◌else◌, ◌==◌, contains, insert, insert_all,
  keep,
}
use remoteterm_meshcore.Prelude.JsMap
use remoteterm_meshcore.Prelude.JsMap.{JsMap}
use remoteterm_meshcore.Data.{Message, MessagePath, Conversation}
use remoteterm_meshcore.Messages.Key.{get_message_content_key, content_keys}
use remoteterm_meshcore.Messages.Cache
use remoteterm_meshcore.Messages.Cache.{
  ConversationMessageCache, has_id, update_by_id, acked_message,
}
use remoteterm_meshcore.Messages.Reconcile.{reconcile_conversation_messages}
use remoteterm_meshcore.Messages.PendingAck.{PendingAckUpdate, set_pending_ack, apply_pending_ack}
use remoteterm_meshcore.Messages.Append.{
  append_unique_messages, is_message_conversation, is_active_conversation_message,
}

abbrev pub message_page_size : ℕ
message_page_size = 200

abbrev pub max_seen_content : ℕ
max_seen_content = 1000

pub record Chat : Type 0 where
  pub active : Option Conversation
  pub messages : List Message
  pub messages_loading : Bool
  pub loading_older : Bool
  pub loading_newer : Bool
  pub has_older_messages : Bool
  pub has_newer_messages : Bool
  pub seen_content : List Text
  pub pending_acks : JsMap ℕ PendingAckUpdate
  pub cache : ConversationMessageCache
  pub fetching_conversation_id : Option Text
  pub latest_reconcile_request_id : ℕ
  pub pending_reconnect_reconcile : Bool

-- `syncSeenContent`
abbrev pub sync_seen_content : List Message → List Text
sync_seen_content messages = insert_all [] (content_keys messages)

-- `data.map((msg) => applyPendingAck(msg))`, which empties the buffer as it goes.
unfoldable pub apply_pending_acks :
    JsMap ℕ PendingAckUpdate → List Message → JsMap ℕ PendingAckUpdate × List Message
apply_pending_acks pending [] = (pending, [])
apply_pending_acks pending (msg ∷ msgs) =
    let (pending', msg') = apply_pending_ack pending msg in
    let (pending'', msgs') = apply_pending_acks pending' msgs in (pending'', msg' ∷ msgs')

-- An answer is for the conversation that is still shown.
abbrev pub is_current : Text → Chat → Bool
is_current conversation_id chat = chat.fetching_conversation_id == some conversation_id

-- The answer to the request of `fetchLatestMessages`.
-- `show_loading` is whether the request put up the loading state.
unfoldable pub receive_latest : Bool → Text → List Message → Chat → Chat
receive_latest show_loading conversation_id fetched chat =
    if not (is_current conversation_id chat)
    then record chat { messages_loading = not show_loading && chat.messages_loading }
    else let (pending, with_acks) = apply_pending_acks chat.pending_acks fetched in
      let next_messages =
        get_or (reconcile_conversation_messages chat.messages with_acks) chat.messages in
      record chat {
        messages = next_messages;
        pending_acks = pending;
        seen_content = sync_seen_content next_messages;
        has_older_messages = leb message_page_size (length with_acks);
        messages_loading = not show_loading && chat.messages_loading;
      }

-- The answer to the request of `reconcileFromBackend`.
unfoldable pub receive_reconcile : Text → ℕ → List Message → Chat → Chat
receive_reconcile conversation_id request_id fetched chat =
    if not (is_current conversation_id chat && chat.latest_reconcile_request_id == request_id)
    then chat
    else let (pending, with_acks) = apply_pending_acks chat.pending_acks fetched in
      let paged : Chat = record chat {
        pending_acks = pending;
        has_older_messages = leb message_page_size (length with_acks);
      } in
      elim (reconcile_conversation_messages chat.messages with_acks) [
        | none ↦ paged
        | some merged ↦ record paged { messages = merged; seen_content = sync_seen_content merged }
      ]

-- The fold of `fetchOlderMessages`: the oldest message, of equal times the one with the least id.
unfoldable pub oldest_message : Option Message → List Message → Option Message
oldest_message oldest [] = oldest
oldest_message none (msg ∷ msgs) = oldest_message (some msg) msgs
oldest_message (some oldest) (msg ∷ msgs) =
    oldest_message
      (if ltb msg.received_at oldest.received_at
        then some msg
        else if msg.received_at == oldest.received_at && ltb msg.id oldest.id
        then some msg
        else some oldest)
      msgs

-- The answer to the request of `fetchOlderMessages`.
unfoldable pub receive_older : Text → List Message → Chat → Chat
receive_older conversation_id fetched chat =
    if not (is_current conversation_id chat)
    then record chat { loading_older = false }
    else let (pending, with_acks) = apply_pending_acks chat.pending_acks fetched in
      let merged = append_unique_messages chat.messages with_acks in
      record chat {
        messages = merged;
        pending_acks = pending;
        seen_content =
            if ltb (length chat.messages) (length merged)
            then sync_seen_content merged
            else chat.seen_content;
        has_older_messages = leb message_page_size (length with_acks);
        loading_older = false;
      }

-- The answer to the request of `fetchNewerMessages`, and whether it starts a reconciliation.
unfoldable pub receive_newer : Text → List Message → Chat → Chat × Bool
receive_newer conversation_id fetched chat =
    if not (is_current conversation_id chat)
    then (record chat { loading_newer = false }, false)
    else let (pending, with_acks) = apply_pending_acks chat.pending_acks fetched in
      let new_messages =
        keep (λ (msg : Message). not (contains chat.seen_content (get_message_content_key msg)))
          with_acks in
      let still_has_newer = leb message_page_size (length with_acks) in
      let reconcile = not still_has_newer && chat.pending_reconnect_reconcile in
      (
        record chat {
          messages = chat.messages ++ new_messages;
          pending_acks = pending;
          seen_content = insert_all chat.seen_content (content_keys new_messages);
          has_newer_messages = still_has_newer;
          loading_newer = false;
          pending_reconnect_reconcile = chat.pending_reconnect_reconcile && not reconcile;
          latest_reconcile_request_id =
              if reconcile
              then chat.latest_reconcile_request_id + 1
              else chat.latest_reconcile_request_id;
        },
        reconcile,
      )

-- `reconcileOnReconnect`, and whether it sends a request.
unfoldable pub reconcile_on_reconnect : Chat → Chat × Bool
reconcile_on_reconnect chat =
    if is_message_conversation chat.active
    then if chat.has_newer_messages
      then (record chat { pending_reconnect_reconcile = true }, false)
      else (
        record chat {
          pending_reconnect_reconcile = false;
          latest_reconcile_request_id = chat.latest_reconcile_request_id + 1;
        },
        true,
      )
    else (chat, false)

-- The key set after one more key: over its limit it is rebuilt from the messages shown.
abbrev pub grow_seen_content : Text → List Text → List Message → List Text
grow_seen_content key seen messages =
    if ltb max_seen_content (length (insert key seen))
    then insert key (sync_seen_content messages)
    else insert key seen

unfoldable pub append_active_message_if_new : Message → Chat → Chat × Bool
append_active_message_if_new msg chat =
    let (pending, with_ack) = apply_pending_ack chat.pending_acks msg in
    if contains chat.seen_content (get_message_content_key with_ack)
    then (record chat { pending_acks = pending }, false)
    else (
      record chat {
        pending_acks = pending;
        seen_content =
            grow_seen_content (get_message_content_key with_ack) chat.seen_content chat.messages;
        messages =
            if has_id with_ack.id chat.messages
            then chat.messages
            else chat.messages ++ with_ack ∷ [];
      },
      true,
    )

-- `updateMessageAck`: buffered unless the message is shown.
unfoldable pub update_message_ack :
    ℕ → ℕ → Option (List MessagePath) → Option (Option ℕ) → Chat → Chat
update_message_ack message_id ack_count paths packet_id chat =
    if has_id message_id chat.messages
    then record chat {
      pending_acks = JsMap.delete message_id chat.pending_acks;
      messages = update_by_id message_id (acked_message ack_count paths packet_id) chat.messages;
    }
    else record chat {
      pending_acks = set_pending_ack chat.pending_acks message_id ack_count paths packet_id;
    }

unfoldable pub receive_message_ack :
    ℕ → ℕ → Option (List MessagePath) → Option (Option ℕ) → Chat → Chat
unfolding update_message_ack
receive_message_ack message_id ack_count paths packet_id chat =
    let updated = update_message_ack message_id ack_count paths packet_id chat in
    record updated { cache = Cache.update_ack message_id ack_count paths packet_id updated.cache }

pub record Observed : Type 0 where
  pub added : Bool
  pub active_conversation : Bool

unfoldable pub observe_message : Message → Chat → Chat × Observed
observe_message msg chat =
    let (pending, with_ack) = apply_pending_ack chat.pending_acks msg in
    let applied : Chat = record chat { pending_acks = pending } in
    if is_active_conversation_message chat.active with_ack
    then if chat.has_newer_messages
      then (applied, record { added = false; active_conversation = true })
      else (let (chat', added) = append_active_message_if_new with_ack applied in
          (chat', record { added = added; active_conversation = true }))
    else let (cache, added) = Cache.add_message with_ack.conversation_key with_ack applied.cache in
      (record applied { cache = cache }, record { added = added; active_conversation = false })
