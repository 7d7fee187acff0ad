-- ===== src/Messages/Switch.antt =====
-- Switching conversations in frontend/src/hooks/useConversationMessages.ts: the effect on the active
-- conversation, the start of `fetchLatestMessages`, jumping, reloading, and what the hook does when
-- conversations are renamed or removed. The id of the conversation before is what was being fetched:
-- the effect writes both refs together. Abort controllers are left out.
pub mod Stale
pub mod Laws
use remoteterm_meshcore.Prelude.{
  ℕ, ◌+◌, Bool, true, false, not, ◌&&◌, ◌||◌, Option, none, some, List, [], ◌∷◌, Text, length, ltb,
  nat_eq, list_eq, option_eq, if◌then◌else◌, ◌==◌, is_some,
}
use remoteterm_meshcore.Data.{Message, Conversation}
use remoteterm_meshcore.Messages.Cache
use remoteterm_meshcore.Messages.Cache.{ConversationMessageCache, CachedConversationEntry}
use remoteterm_meshcore.Messages.Append.{is_message_conversation}
use remoteterm_meshcore.Messages.Chat.{Chat, apply_pending_acks, sync_seen_content}

-- A request that is sent: for the latest page, for a reconciliation with its number, or for the page
-- around a message.
pub data Fetch : Type 0 where
  latest : Fetch
  reconcile : ℕ → Fetch
  around : ℕ → Fetch

abbrev pub conversation_id : Option Conversation → Option Text
conversation_id none = none
conversation_id (some conversation) = some conversation.id

-- `prevId && ...`
abbrev pub truthy : Option Text → Bool
truthy none = false
truthy (some id) = not (id == [])

-- `targetMessageId` as a condition: 0 is no target.
abbrev pub truthy_target : Option ℕ → Option ℕ
truthy_target none = none
truthy_target (some message_id) = if message_id == 0 then none else some message_id

unfoldable pub fetch_latest : Bool → Chat → Chat × Option Fetch
fetch_latest show_loading chat =
    if not (is_message_conversation chat.active)
    then (record chat { messages = []; has_older_messages = false }, none)
    else (
      record chat {
        pending_reconnect_reconcile = false;
        messages = if show_loading then [] else chat.messages;
        messages_loading = show_loading || chat.messages_loading;
      },
      some latest,
    )

-- The rows that are shown go to the cache, unless newer ones are missing from them.
unfoldable pub store_previous : Bool → Chat → ConversationMessageCache
store_previous changed chat = elim chat.fetching_conversation_id [
  | none ↦ chat.cache
  | some prev ↦
      if changed && not (prev == []) && ltb 0 (length chat.messages) && not chat.has_newer_messages
      then Cache.set prev
          (record { messages = chat.messages; has_older_messages = chat.has_older_messages })
          chat.cache
      else chat.cache
]

-- Opening a message conversation without a target: from the cache if it is there.
unfoldable pub open_conversation : Text → Chat → Chat × Option Fetch
unfolding fetch_latest
open_conversation id chat =
    let (cache, cached) = Cache.get id chat.cache in
    elim cached [
      | some entry ↦ (
        record chat {
          cache = cache;
          messages = entry.messages;
          seen_content = sync_seen_content entry.messages;
          has_older_messages = entry.has_older_messages;
          messages_loading = false;
          latest_reconcile_request_id = chat.latest_reconcile_request_id + 1;
        },
        some (reconcile (chat.latest_reconcile_request_id + 1)),
      )
      | none ↦ fetch_latest true (record chat { cache = cache })
    ]

-- The end of the effect: what the conversation that is entered shows and asks for.
unfoldable pub enter_conversation : Option Conversation → Option ℕ → Chat → Chat × Option Fetch
unfolding open_conversation
enter_conversation none target chat =
    (record chat { messages = []; has_older_messages = false }, none)
enter_conversation (some conversation) target chat =
    if not (is_message_conversation (some conversation))
    then (record chat { messages = []; has_older_messages = false }, none)
    else elim target [
      | some message_id ↦
          (record chat { messages_loading = true; messages = [] }, some (around message_id))
      | none ↦ open_conversation conversation.id chat
    ]

-- The effect on the active conversation, the message to jump to and the reload version.
unfoldable pub switch_conversation :
    Option Conversation → Option ℕ → Bool → Chat → Chat × Option Fetch
unfolding store_previous enter_conversation
switch_conversation active target reload_requested chat =
    let changed = not (chat.fetching_conversation_id == conversation_id active) in
    let current : Chat = record chat {
      active = active;
      fetching_conversation_id = conversation_id active;
      latest_reconcile_request_id = 0;
      pending_reconnect_reconcile = false;
    } in
    let left : Chat = record current {
      loading_older = false;
      loading_newer = false;
      has_newer_messages = not changed && chat.has_newer_messages;
      cache = store_previous changed chat;
    } in
    if not changed && not (is_some (truthy_target target)) && not reload_requested
    then (current, none)
    else enter_conversation active (truthy_target target) left

-- The answer to a request for the page around a message.
unfoldable pub receive_around : Text → List Message → Bool → Bool → Chat → Chat
receive_around id fetched has_older has_newer chat =
    if not (chat.fetching_conversation_id == some id)
    then record chat { messages_loading = false }
    else let (pending, with_acks) = apply_pending_acks chat.pending_acks fetched in
      record chat {
        pending_acks = pending;
        messages = with_acks;
        seen_content = sync_seen_content with_acks;
        has_older_messages = has_older;
        has_newer_messages = has_newer;
        messages_loading = false;
      }

unfoldable pub jump_to_bottom : Chat → Chat × Option Fetch
unfolding fetch_latest
jump_to_bottom chat = elim chat.active [
  | none ↦ (chat, none)
  | some conversation ↦
      fetch_latest true (record chat {
        has_newer_messages = false;
        cache = Cache.remove conversation.id chat.cache;
      })
]

-- The effect runs after it with a new reload version.
unfoldable pub reload_current_conversation : Option ℕ → Chat → Chat × Option Fetch
unfolding switch_conversation
reload_current_conversation target chat =
    if not (is_message_conversation chat.active) then (chat, none) else elim chat.active [
      | none ↦ (chat, none)
      | some conversation ↦ switch_conversation (some conversation) target true (record chat {
        has_newer_messages = false;
        cache = Cache.remove conversation.id chat.cache;
      })
    ]

unfoldable pub rename_conversation_messages : Text → Text → Chat → Chat
rename_conversation_messages old_id new_id chat = record chat {
  cache = Cache.rename old_id new_id chat.cache;
}

unfoldable pub remove_conversation_messages : Text → Chat → Chat
remove_conversation_messages id chat = record chat { cache = Cache.remove id chat.cache }
