-- ===== src/Messages/Switch/Stale.antt =====
-- Answers that come late, after a switch of the conversation in
-- frontend/src/hooks/useConversationMessages.ts.
use remoteterm_meshcore.Prelude.{
  ℕ, ◌≡◌, ◌≢◌, refl, sym, ◌∙◌, inl, inr, Bool, true, false, not, ◌&&◌, Option, none, some, List,
  Text, arith, nat_eq, list_eq, option_eq, ◌==◌, eq_iff, is_some, Bool-cases, Option-cases,
}
use remoteterm_meshcore.Data.{Message, Conversation}
use remoteterm_meshcore.Messages.Cache
use remoteterm_meshcore.Messages.Cache.{
  ConversationMessageCache, CachedConversationEntry, trim_entry,
}
use remoteterm_meshcore.Messages.Append.{is_message_conversation}
use remoteterm_meshcore.Messages.Chat.{
  Chat, receive_latest, receive_reconcile, receive_older, receive_newer,
}
use remoteterm_meshcore.Messages.Chat.Laws.{stale_answers_ignored}
use remoteterm_meshcore.Messages.Switch.{
  conversation_id, truthy_target, receive_around, fetch_latest, open_conversation,
  enter_conversation, switch_conversation,
}

fetching-latest :
    (show_loading : Bool) (chat : Chat)
    → (fetch_latest show_loading chat).0.fetching_conversation_id ≡ chat.fetching_conversation_id
unfolding fetch_latest
fetching-latest show_loading chat = ground arith

fetching-open :
    (id : Text) (chat : Chat)
    → (open_conversation id chat).0.fetching_conversation_id ≡ chat.fetching_conversation_id
unfolding open_conversation
fetching-open id chat = elim (Option-cases (Cache.get id chat.cache).1) [
  | inl missing ↦
      rw (missing, open_conversation)
        (fetching-latest true (record chat { cache = (Cache.get id chat.cache).0 }))
  | inr (entry, held) ↦ rw (held, open_conversation) refl
]

fetching-enter :
    (active : Option Conversation) (target : Option ℕ) (chat : Chat)
    → (enter_conversation active target chat).0.fetching_conversation_id
      ≡ chat.fetching_conversation_id
unfolding enter_conversation
fetching-enter none target chat = refl
fetching-enter (some conversation) target chat =
    elim (Bool-cases (is_message_conversation (some conversation))) [
      | inr page ↦ rw (page, enter_conversation) refl
      | inl shown ↦
          rw (shown, enter_conversation)
            (elim (Option-cases target) [
              | inl latest_rows ↦ rw latest_rows (fetching-open conversation.id chat)
              | inr (message_id, jump) ↦ rw jump refl
            ])
    ]

fetching-switch :
    (active : Option Conversation) (target : Option ℕ) (reload : Bool) (chat : Chat)
    → (switch_conversation active target reload chat).0.fetching_conversation_id
      ≡ conversation_id active
unfolding switch_conversation
fetching-switch active target reload chat =
    elim (Bool-cases (
      not (not (chat.fetching_conversation_id == conversation_id active))
      && not (is_some (truthy_target target))
      && not reload)) [
        | inl same ↦ rw (same, switch_conversation) refl
        | inr moved ↦
            rw (moved, switch_conversation) (fetching-enter active (truthy_target target) _)
      ]

around_ignored :
    (chat : Chat) (id : Text) (fetched : List Message) (has_older has_newer : Bool)
    → chat.fetching_conversation_id ≢ some id
    → receive_around id fetched has_older has_newer chat ≡ record chat { messages_loading = false }
unfolding receive_around
around_ignored chat id fetched has_older has_newer h =
    ground (arith, eq_iff chat.fetching_conversation_id (some id))

-- After a switch to another conversation, answers that still come for the one before change nothing
-- but the flags of loading, whatever they hold: the answer for a reconciliation, the latest page, the
-- page around a message, an older page or a newer page.
pub switch_ignores_previous :
    (active : Option Conversation) (target : Option ℕ) (reload : Bool) (chat : Chat)
    (show_loading has_older has_newer : Bool) (previous : Text) (request_id : ℕ)
    (fetched : List Message)
    → conversation_id active ≢ some previous
    → let after : Chat = (switch_conversation active target reload chat).0 in
      (receive_reconcile previous request_id fetched after ≡ after)
      × (receive_latest show_loading previous fetched after
          ≡ record after { messages_loading = not show_loading && after.messages_loading })
      × (receive_around previous fetched has_older has_newer after
          ≡ record after { messages_loading = false })
      × (receive_older previous fetched after ≡ record after { loading_older = false })
      × (receive_newer previous fetched after ≡ (record after { loading_newer = false }, false))
switch_ignores_previous active target reload chat show_loading has_older has_newer previous
      request_id fetched h =
    let after : Chat = (switch_conversation active target reload chat).0 in
    let away : after.fetching_conversation_id ≢ some previous =
      λ e. h (sym (fetching-switch active target reload chat) ∙ e) in
    let (reconciled, latest, older, newer) =
      stale_answers_ignored after show_loading previous request_id fetched away in
    (
      reconciled,
      latest,
      around_ignored after previous fetched has_older has_newer away,
      older,
      newer,
    )
