-- ===== src/Unread.antt =====
-- The hook `useUnreadCounts` of frontend/src/hooks/useUnreadCounts.ts and the cache of last message
-- times of frontend/src/utils/conversationState.ts, as one state and its handlers. What the hook
-- asks of the server is a list of requests; answers come in as events.
pub mod Laws
pub mod Renaming
pub mod Runs
pub mod Refinement
pub mod Badges
use remoteterm_meshcore.Prelude.{
  ℕ, ◌+◌, ◌*◌, Bool, true, false, not, ◌&&◌, ◌||◌, Option, none, some, List, [], ◌∷◌, ◌++◌, Text,
  codes, max, ltb, get_or, or_else, is_some, nat_eq, list_eq, option_eq, if◌then◌else◌, ◌==◌, Eq,
}
use remoteterm_meshcore.Prelude.JsMap
use remoteterm_meshcore.Prelude.JsMap.{JsMap}
use remoteterm_meshcore.Data.{Message, MessageType, Conversation, ConversationType}
use remoteterm_meshcore.Data

-- The kinds of conversation that have unread messages.
pub data TrackedType : Type 0 where
  channel contact : TrackedType

-- `${type}-${id}`
unfoldable pub get_state_key : TrackedType → Text → Text
get_state_key channel id = codes "channel-" ++ id
get_state_key contact id = codes "contact-" ++ id

-- `isUnreadTrackedConversation`, with the type and the id of the conversation
unfoldable pub readable : Option Conversation → Option (TrackedType × Text)
readable none = none
readable (some conversation) = elim conversation.kind [
  | Data.channel ↦ some (channel, conversation.id)
  | Data.contact ↦ some (contact, conversation.id)
  | _ ↦ none
]

abbrev pub state_key_of : Option (TrackedType × Text) → Option Text
state_key_of none = none
state_key_of (some (kind, id)) = some (get_state_key kind id)

abbrev pub readable_key : Option Conversation → Option Text
readable_key conversation = state_key_of (readable conversation)

-- The answer of the server to a request for unread messages.
pub record UnreadCounts : Type 0 where
  pub counts : JsMap Text ℕ
  pub mentions : JsMap Text Bool
  pub last_message_times : JsMap Text ℕ
  pub last_read_ats : JsMap Text (Option ℕ)
  pub first_unread_ids : Option (JsMap Text (Option ℕ))

pub data Request : Type 0 where
  mark_channel_read : Text → Request
  mark_contact_read : Text → Request
  mark_everything_read : Request

-- The state of the hook; `times_cache` is `lastMessageTimesCache` of the other file.
pub record Unread : Type 0 where
  pub unread_counts : JsMap Text ℕ
  pub mentions : JsMap Text Bool
  pub last_message_times : JsMap Text ℕ
  pub unread_last_read_ats : JsMap Text (Option ℕ)
  pub first_unread_ids : JsMap Text (Option ℕ)
  pub times_cache : JsMap Text ℕ
  pub active : Option Conversation
  pub has_observed_counts : Bool
  pub requests : List Request

-- `setLastMessageTime` for each entry
unfoldable pub set_last_message_times : JsMap Text ℕ → JsMap Text ℕ → JsMap Text ℕ
set_last_message_times [] cache = cache
set_last_message_times ((key, timestamp) ∷ times) cache =
    set_last_message_times times (JsMap.set key timestamp cache)

unfoldable pub rename_conversation_time_key : Text → Text → JsMap Text ℕ → JsMap Text ℕ
rename_conversation_time_key old_key new_key cache =
    if old_key == new_key then cache else elim (JsMap.get old_key cache) [
      | none ↦ cache
      | some old_timestamp ↦ JsMap.delete old_key (
          JsMap.set new_key
            (elim (JsMap.get new_key cache) [
              | none ↦ old_timestamp
              | some new_timestamp ↦ max new_timestamp old_timestamp
            ])
            cache)
    ]

-- `activeKey` of `applyUnreads`: the entry of the conversation shown is left out.
abbrev pub without_active {ℓ} : {V : Type ℓ} → Option Text → JsMap Text V → JsMap Text V
without_active none m = m
without_active (some key) m = JsMap.delete key m

unfoldable pub apply_unreads : UnreadCounts → Unread → Unread
apply_unreads answer unread =
    let active_key = readable_key unread.active in
    let cache = set_last_message_times answer.last_message_times unread.times_cache in
    record unread {
      unread_counts = without_active active_key answer.counts;
      mentions = without_active active_key answer.mentions;
      unread_last_read_ats = answer.last_read_ats;
      first_unread_ids = get_or answer.first_unread_ids [];
      times_cache = cache;
      last_message_times = elim answer.last_message_times [
        | [] ↦ unread.last_message_times
        | _ ∷ _ ↦ cache
      ];
    }

abbrev pub mark_read_request : TrackedType → Text → Request
mark_read_request channel id = mark_channel_read id
mark_read_request contact id = mark_contact_read id

-- The end of `fetchUnreads`, with the answer if there was one.
unfoldable pub receive_unreads : Option UnreadCounts → Unread → Unread
receive_unreads answer unread =
    let applied : Unread = elim answer [
      | none ↦ unread
      | some given ↦ apply_unreads given unread
    ] in
    elim (readable unread.active) [
      | none ↦ applied
      | some (kind, id) ↦ record applied {
        requests = applied.requests ++ mark_read_request kind id ∷ [];
      }
    ]

-- The effect on the numbers of channels and contacts, and whether it fetches the unread messages.
unfoldable pub lists_changed : Bool → Unread → Unread × Bool
lists_changed lists_loaded unread =
    if not lists_loaded
    then (unread, false)
    else if not unread.has_observed_counts
    then (record unread { has_observed_counts = true }, false)
    else (unread, true)

-- Drops the entry of a key that holds a truthy value: `if (prev[key]) delete next[key]`.
abbrev pub clear_count : Text → JsMap Text ℕ → JsMap Text ℕ
clear_count key m = if ltb 0 (get_or (JsMap.get key m) 0) then JsMap.delete key m else m

abbrev pub clear_mention : Text → JsMap Text Bool → JsMap Text Bool
clear_mention key m = if get_or (JsMap.get key m) false then JsMap.delete key m else m

-- The effect that marks a conversation as read.
unfoldable pub mark_read : TrackedType → Text → Unread → Unread
mark_read kind id unread =
    let key = get_state_key kind id in
    if id == [] then unread else record unread {
      unread_counts = clear_count key unread.unread_counts;
      mentions = clear_mention key unread.mentions;
      requests = unread.requests ++ mark_read_request kind id ∷ [];
    }

-- Another conversation is shown; the effect runs when its type or its id has changed.
unfoldable pub show_conversation : Option Conversation → Unread → Unread
show_conversation conversation unread =
    let shown : Unread = record unread { active = conversation } in
    if readable_key conversation == readable_key unread.active
    then shown
    else elim (readable conversation) [ none ↦ shown | some (kind, id) ↦ mark_read kind id shown ]

-- `prev[stateKey] != null`
abbrev pub boundary : Text → JsMap Text (Option ℕ) → Option ℕ
boundary key first_unread_ids = get_or (JsMap.get key first_unread_ids) none

unfoldable pub increment_unread : Text → ℕ → Bool → Unread → Unread
increment_unread state_key message_id has_mention unread = record unread {
  unread_counts =
      JsMap.set state_key (get_or (JsMap.get state_key unread.unread_counts) 0 + 1)
        unread.unread_counts;
  first_unread_ids =
      if is_some (boundary state_key unread.first_unread_ids)
      then unread.first_unread_ids
      else JsMap.set state_key (some message_id) unread.first_unread_ids;
  mentions = if has_mention then JsMap.set state_key true unread.mentions else unread.mentions;
}

-- The key of a message's conversation; an empty conversation key is falsy.
unfoldable pub message_state_key : Message → Option Text
message_state_key msg = if msg.conversation_key == [] then none else elim msg.kind [
  | Data.chan ↦ some (get_state_key channel msg.conversation_key)
  | Data.priv ↦ some (get_state_key contact msg.conversation_key)
]

-- `now` is the clock in seconds.
unfoldable pub record_message_event : Message → Bool → Bool → Bool → ℕ → Unread → Unread
record_message_event msg active_conversation is_new_message has_mention now unread =
    elim (message_state_key msg) [
      | none ↦ unread
      | some state_key ↦
          let timestamp = if msg.received_at == 0 then now else msg.received_at in
          let cache = JsMap.set state_key timestamp unread.times_cache in
          let timed : Unread = record unread { times_cache = cache; last_message_times = cache } in
          if not active_conversation && not msg.outgoing && is_new_message
          then increment_unread state_key msg.id has_mention timed
          else timed
    ]

-- `if (oldKey in prev) { next[newKey] = join(next[newKey], next[oldKey]); delete next[oldKey]; }`
unfoldable pub rename_entry {ℓ} :
    {V : Type ℓ} → (Option V → V → V) → Text → Text → JsMap Text V → JsMap Text V
rename_entry merge old_key new_key m = elim (JsMap.get old_key m) [
  | none ↦ m
  | some value ↦ JsMap.delete old_key (JsMap.set new_key (merge (JsMap.get new_key m) value) m)
]

abbrev pub add_counts : Option ℕ → ℕ → ℕ
add_counts present value = get_or present 0 + value

abbrev pub either_mention : Option Bool → Bool → Bool
either_mention present value = get_or present false || value

abbrev pub first_boundary : Option (Option ℕ) → Option ℕ → Option ℕ
first_boundary present value = or_else (get_or present none) value

unfoldable pub rename_conversation_state : Text → Text → Unread → Unread
rename_conversation_state old_key new_key unread =
    if old_key == new_key
    then unread
    else let cache = rename_conversation_time_key old_key new_key unread.times_cache in
      record unread {
        unread_counts = rename_entry add_counts old_key new_key unread.unread_counts;
        mentions = rename_entry either_mention old_key new_key unread.mentions;
        first_unread_ids = rename_entry first_boundary old_key new_key unread.first_unread_ids;
        times_cache = cache;
        last_message_times = cache;
      }

unfoldable pub remove_conversation_state : Text → Unread → Unread
remove_conversation_state state_key unread = record unread {
  unread_counts = JsMap.delete state_key unread.unread_counts;
  mentions = JsMap.delete state_key unread.mentions;
  first_unread_ids = JsMap.delete state_key unread.first_unread_ids;
  unread_last_read_ats = JsMap.delete state_key unread.unread_last_read_ats;
}

unfoldable pub mark_all_read : Unread → Unread
mark_all_read unread = record unread {
  unread_counts = [];
  mentions = [];
  unread_last_read_ats = [];
  first_unread_ids = [];
  requests = unread.requests ++ mark_everything_read ∷ [];
}
