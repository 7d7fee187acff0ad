-- ===== src/Unread/Badges.antt =====
-- What the unread state of frontend/src/hooks/useUnreadCounts.ts shows of a conversation, forgetting
-- how the maps are laid out: the badge of each state key. `Badges` is the abstract machine.
use remoteterm_meshcore.Prelude.{
  ℕ, ◌+◌, Bool, false, not, ◌&&◌, ◌||◌, Option, none, some, List, [], ◌∷◌, Text, get_or, or_else,
  nat_eq, list_eq, option_eq, if◌then◌else◌, ◌==◌,
}
use remoteterm_meshcore.Prelude.JsMap
use remoteterm_meshcore.Prelude.JsMap.{JsMap}
use remoteterm_meshcore.Data.{Message, Conversation}
use remoteterm_meshcore.Unread.{
  UnreadCounts, Unread, TrackedType, readable, readable_key, get_state_key, boundary,
  message_state_key, receive_unreads, lists_changed, show_conversation, record_message_event,
  rename_conversation_state, remove_conversation_state, mark_all_read,
}

pub record Badge : Type 0 where
  pub count : ℕ
  pub mention : Bool
  pub first_unread : Option ℕ

abbrev pub no_badge : Badge
no_badge = record { count = 0; mention = false; first_unread = none }

abbrev pub badge : Text → Unread → Badge
badge key unread = record {
  count = get_or (JsMap.get key unread.unread_counts) 0;
  mention = get_or (JsMap.get key unread.mentions) false;
  first_unread = boundary key unread.first_unread_ids;
}

-- The handlers, as events.
pub data Event : Type 0 where
  received : Option UnreadCounts → Event
  lists : Bool → Event
  shown : Option Conversation → Event
  recorded : Message → Bool → Bool → Bool → ℕ → Event
  renamed : Text → Text → Event
  removed : Text → Event
  all_read : Event

unfoldable pub step : Event → Unread → Unread
step (received answer) unread = receive_unreads answer unread
step (lists loaded) unread = (lists_changed loaded unread).0
step (shown conversation) unread = show_conversation conversation unread
step (recorded msg active is_new mention now) unread =
    record_message_event msg active is_new mention now unread
step (renamed old_key new_key) unread = rename_conversation_state old_key new_key unread
step (removed key) unread = remove_conversation_state key unread
step all_read unread = mark_all_read unread

unfoldable pub run : List Event → Unread → Unread
run [] unread = unread
run (event ∷ events) unread = run events (step event unread)

-- The abstract state: the key of the conversation shown, and a badge for every key.
pub record Badges : Type 0 where
  pub shown_key : Option Text
  pub badge_of : Text → Badge

abbrev pub read_badge : Badge → Badge
read_badge b = record { count = 0; mention = false; first_unread = b.first_unread }

abbrev pub bumped : ℕ → Bool → Badge → Badge
bumped id mention b = record {
  count = b.count + 1;
  mention = mention || b.mention;
  first_unread = or_else b.first_unread (some id);
}

abbrev pub joined : Badge → Badge → Badge
joined b old = record {
  count = b.count + old.count;
  mention = b.mention || old.mention;
  first_unread = or_else b.first_unread old.first_unread;
}

abbrev pub badge_in : UnreadCounts → Text → Badge
badge_in answer key = record {
  count = get_or (JsMap.get key answer.counts) 0;
  mention = get_or (JsMap.get key answer.mentions) false;
  first_unread = boundary key (get_or answer.first_unread_ids []);
}

-- A message that raises the badge of its conversation.
abbrev pub raises : Message → Bool → Bool → Bool
raises msg active is_new = not active && not msg.outgoing && is_new

-- The key that showing a conversation marks as read: none, if its id is empty or it was shown.
abbrev pub newly_read : Option (TrackedType × Text) → Option Text → Option Text
newly_read none shown_key = none
newly_read (some (kind, id)) shown_key =
    if id == [] || shown_key == some (get_state_key kind id)
    then none
    else some (get_state_key kind id)

-- The badges of all keys after an event.
unfoldable pub badge_after : Event → Badges → Text → Badge
badge_after (received none) b key = b.badge_of key
badge_after (received (some answer)) b key =
    if b.shown_key == some key then read_badge (badge_in answer key) else badge_in answer key
badge_after (lists loaded) b key = b.badge_of key
badge_after (shown conversation) b key =
    if newly_read (readable conversation) b.shown_key == some key
    then read_badge (b.badge_of key)
    else b.badge_of key
badge_after (recorded msg active is_new mention now) b key =
    if raises msg active is_new && message_state_key msg == some key
    then bumped msg.id mention (b.badge_of key)
    else b.badge_of key
badge_after (renamed old_key new_key) b key =
    if old_key == new_key
    then b.badge_of key
    else if key == old_key
    then no_badge
    else if key == new_key
    then joined (b.badge_of key) (b.badge_of old_key)
    else b.badge_of key
badge_after (removed gone) b key = if key == gone then no_badge else b.badge_of key
badge_after all_read b key = no_badge

abbrev pub shown_after : Event → Option Text → Option Text
shown_after (shown conversation) key = readable_key conversation
shown_after _ key = key

abbrev pub badges_step : Event → Badges → Badges
badges_step event b = record {
  shown_key = shown_after event b.shown_key;
  badge_of = badge_after event b;
}

unfoldable pub badges_run : List Event → Badges → Badges
badges_run [] b = b
badges_run (event ∷ events) b = badges_run events (badges_step event b)

-- What the abstract machine sees of the state.
abbrev pub badges : Unread → Badges
badges unread = record {
  shown_key = readable_key unread.active;
  badge_of = λ key. badge key unread;
}
