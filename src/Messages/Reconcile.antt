-- ===== src/Messages/Reconcile.antt =====
-- `reconcileConversationMessages` of frontend/src/hooks/useConversationMessages.ts: a page fetched
-- from the backend replaces what is shown, unless nothing in it is news.
pub mod Laws
pub mod Shown
use remoteterm_meshcore.Prelude.{
  ℕ, Bool, true, false, not, ◌&&◌, ◌||◌, Option, none, some, List, [], ◌∷◌, ◌++◌, Text, length,
  get_or, nat_eq, list_eq, option_eq, if◌then◌else◌, ◌==◌, contains, keep,
}
use remoteterm_meshcore.Prelude.JsMap
use remoteterm_meshcore.Prelude.JsMap.{JsMap}
use remoteterm_meshcore.Data.{Message}
use remoteterm_meshcore.Messages.Key.{ids}

pub record MessageSummary : Type 0 where
  pub acked : ℕ
  pub paths_len : ℕ
  pub text : Text
  pub packet_id : Option (Option ℕ)

-- `message.paths?.length ?? 0`
abbrev pub paths_len : Message → ℕ
paths_len message = length (get_or message.paths [])

abbrev pub summary : Message → MessageSummary
summary message = record {
  acked = message.acked;
  paths_len = paths_len message;
  text = message.text;
  packet_id = message.packet_id;
}

-- The loop that fills `currentById`: of two messages with one id the later counts.
unfoldable pub index_by_id : JsMap ℕ MessageSummary → List Message → JsMap ℕ MessageSummary
index_by_id by_id [] = by_id
index_by_id by_id (message ∷ messages) =
    index_by_id (JsMap.set message.id (summary message) by_id) messages

unfoldable pub differs : Option MessageSummary → Message → Bool
differs none message = true
differs (some current) message =
    not (current.acked == message.acked)
    || not (current.paths_len == paths_len message)
    || not (current.text == message.text)
    || not (current.packet_id == message.packet_id)

unfoldable pub needs_update : JsMap ℕ MessageSummary → List Message → Bool
unfolding differs
needs_update by_id [] = false
needs_update by_id (message ∷ fetched) =
    differs (JsMap.get message.id by_id) message || needs_update by_id fetched

-- `current.filter((message) => !fetchedIds.has(message.id))`
unfoldable pub older_messages : List Message → List Message → List Message
older_messages fetched current =
    keep (λ (message : Message). not (contains (ids fetched) message.id)) current

-- `none` for `null`: nothing to update.
unfoldable pub reconcile_conversation_messages : List Message → List Message → Option (List Message)
unfolding index_by_id needs_update older_messages
reconcile_conversation_messages current fetched =
    if needs_update (index_by_id [] current) fetched
    then some (fetched ++ older_messages fetched current)
    else none
