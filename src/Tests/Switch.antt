-- ===== src/Tests/Switch.antt =====
-- The theorems about switching, from a conversation to the map and back.
use remoteterm_meshcore.Prelude.{
  ◌≡◌, refl, true, false, not, ◌&&◌, none, some, [], codes, list_eq, nat_eq,
}
use remoteterm_meshcore.Data.{Conversation}
use remoteterm_meshcore.Data
use remoteterm_meshcore.Messages.Append.{is_message_conversation}
use remoteterm_meshcore.Messages.Cache.{trim_entry}
use remoteterm_meshcore.Messages.Chat.{
  Chat, receive_reconcile, receive_latest, receive_older, receive_newer,
}
use remoteterm_meshcore.Messages.Switch.{switch_conversation, receive_around}
use remoteterm_meshcore.Messages.Switch.Stale.{switch_ignores_previous}
use remoteterm_meshcore.Messages.Switch.Laws.{shown_rows, ShowsAgain, switch_back}
use remoteterm_meshcore.Tests.Messages.{empty-IsValid}
use remoteterm_meshcore.Tests.Chat.{chat, page}

abbrev al : Conversation
al = record { kind = Data.contact; id = codes "ab"; name = codes "Al"; map_focus_key = none }

abbrev the_map : Conversation
the_map = record { kind = Data.map; id = codes "map"; name = codes "Map"; map_focus_key = none }

abbrev after_switch : Chat
after_switch = (switch_conversation (some the_map) none false chat).0

switch_ignores_previous_example :
    (receive_reconcile (codes "ab") 1 page after_switch ≡ after_switch)
    × (receive_latest true (codes "ab") page after_switch
        ≡ record after_switch { messages_loading = not true && after_switch.messages_loading })
    × (receive_around (codes "ab") page true true after_switch
        ≡ record after_switch { messages_loading = false })
    × (receive_older (codes "ab") page after_switch ≡ record after_switch { loading_older = false })
    × (receive_newer (codes "ab") page after_switch
        ≡ (record after_switch { loading_newer = false }, false))
switch_ignores_previous_example =
    switch_ignores_previous (some the_map) none false chat true true true (codes "ab") 1 page
      (λ h. cc)

switch_back_example :
    (after_switch.messages ≡ [])
    × ShowsAgain
        (trim_entry (shown_rows chat))
        (switch_conversation (some al) none false after_switch)
unfolding is_message_conversation
switch_back_example = switch_back chat al the_map empty-IsValid refl refl refl refl refl refl refl
