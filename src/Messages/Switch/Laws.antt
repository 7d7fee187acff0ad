-- ===== src/Messages/Switch/Laws.antt =====
-- Rows and answers across switches of the conversation in
-- frontend/src/hooks/useConversationMessages.ts.
use remoteterm_meshcore.Prelude.{
  ℕ, ◌+◌, ◌≡◌, refl, ap, sym, ◌∙◌, inl, inr, true, false, Option, none, some, [], Text, arith,
  length, ltb, nat_eq, list_eq, option_eq, ◌==◌, eq_comm, Option-cases,
}
use mathlib.Core.Path.{subst}
use remoteterm_meshcore.Data.{Conversation}
use remoteterm_meshcore.Messages.Cache
use remoteterm_meshcore.Messages.Cache.{
  ConversationMessageCache, CachedConversationEntry, trim_entry,
}
use remoteterm_meshcore.Messages.Cache.Validity.{IsValid}
use remoteterm_meshcore.Messages.Cache.Laws.{get-set}
use remoteterm_meshcore.Messages.Append.{is_message_conversation}
use remoteterm_meshcore.Messages.Chat.{Chat, sync_seen_content}
use remoteterm_meshcore.Messages.Switch.{
  Fetch, truthy_target, reconcile, conversation_id, store_previous, open_conversation,
  enter_conversation, switch_conversation,
}

-- The state after leaving the rows of one conversation for a page without messages.
abbrev left_for : Conversation → ConversationMessageCache → Chat → Chat
left_for page cache chat = record chat {
  active = some page;
  fetching_conversation_id = some page.id;
  latest_reconcile_request_id = 0;
  pending_reconnect_reconcile = false;
  loading_older = false;
  loading_newer = false;
  has_newer_messages = false;
  cache = cache;
  messages = [];
  has_older_messages = false;
}

abbrev pub shown_rows : Chat → CachedConversationEntry
shown_rows chat = record { messages = chat.messages; has_older_messages = chat.has_older_messages }

stores :
    (chat : Chat) (here : Text)
    → chat.fetching_conversation_id ≡ some here
    → (here == []) ≡ false
    → ltb 0 (length chat.messages) ≡ true
    → chat.has_newer_messages ≡ false
    → store_previous true chat ≡ Cache.set here (shown_rows chat) chat.cache
unfolding store_previous
stores chat here at_ named rows whole =
    rw (at_, store_previous) (rw named (rw rows (rw whole refl)))

enter_page :
    (page : Conversation) (chat : Chat)
    → is_message_conversation (some page) ≡ false
    → enter_conversation (some page) none chat
      ≡ (record chat { messages = []; has_older_messages = false }, none)
unfolding enter_conversation
enter_page page chat plain = rw (plain, enter_conversation) refl

-- The state in which another conversation is entered.
abbrev entering : Option Conversation → ConversationMessageCache → Chat → Chat
entering active cache chat = record chat {
  active = active;
  fetching_conversation_id = conversation_id active;
  latest_reconcile_request_id = 0;
  pending_reconnect_reconcile = false;
  loading_older = false;
  loading_newer = false;
  has_newer_messages = false;
  cache = cache;
}

switch_changed :
    (active : Option Conversation) (target : Option ℕ) (chat : Chat)
    → (chat.fetching_conversation_id == conversation_id active) ≡ false
    → switch_conversation active target false chat
      ≡ enter_conversation active
          (truthy_target target)
          (entering active (store_previous true chat) chat)
unfolding switch_conversation
switch_changed active target chat changed = rw (changed, switch_conversation) refl

leave :
    (chat : Chat) (here page : Conversation)
    → chat.fetching_conversation_id ≡ some here.id
    → is_message_conversation (some page) ≡ false
    → (here.id == []) ≡ false
    → (here.id == page.id) ≡ false
    → ltb 0 (length chat.messages) ≡ true
    → chat.has_newer_messages ≡ false
    → (switch_conversation (some page) none false chat).0
      ≡ left_for page (Cache.set here.id (shown_rows chat) chat.cache) chat
leave chat here page at_ plain named differ rows whole =
    ap (λ (r : Chat × Option Fetch). r.0)
      (switch_changed (some page) none chat (rw at_ differ)
        ∙ enter_page page (entering (some page) (store_previous true chat) chat) plain)
    ∙ ap (λ cache. left_for page cache chat) (stores chat here.id at_ named rows whole)

stores_nothing : (chat : Chat) → length chat.messages ≡ 0 → store_previous true chat ≡ chat.cache
unfolding store_previous
stores_nothing chat empty = elim (Option-cases chat.fetching_conversation_id) [
  | inl nowhere ↦ rw (nowhere, store_previous) refl
  | inr (prev, there) ↦ rw (there, store_previous) (ground arith)
]

enter_cached :
    (here : Conversation) (chat : Chat) (entry : CachedConversationEntry)
    → is_message_conversation (some here) ≡ true
    → (Cache.get here.id chat.cache).1 ≡ some entry
    → enter_conversation (some here) none chat ≡ (
      record chat {
        cache = (Cache.get here.id chat.cache).0;
        messages = entry.messages;
        seen_content = sync_seen_content entry.messages;
        has_older_messages = entry.has_older_messages;
        messages_loading = false;
        latest_reconcile_request_id = chat.latest_reconcile_request_id + 1;
      },
      some (reconcile (chat.latest_reconcile_request_id + 1)),
    )
unfolding enter_conversation open_conversation
enter_cached here chat entry message held =
    rw (message, enter_conversation) (rw (held, open_conversation) refl)

-- What a conversation shows when it is entered from a page without rows, if it is cached.
abbrev pub ShowsAgain : CachedConversationEntry → Chat × Option Fetch → Type 0
ShowsAgain entry (back, request) =
    (back.messages ≡ entry.messages)
    × (back.has_older_messages ≡ entry.has_older_messages)
    × (back.messages_loading ≡ false)
    × (request ≡ some (reconcile 1))

come_back :
    (chat : Chat) (here page : Conversation) (cache : ConversationMessageCache)
    (entry : CachedConversationEntry)
    → is_message_conversation (some here) ≡ true
    → (here.id == page.id) ≡ false
    → (Cache.get here.id cache).1 ≡ some entry
    → ShowsAgain entry (switch_conversation (some here) none false (left_for page cache chat))
come_back chat here page cache entry message differ held =
    let away : Chat = left_for page cache chat in
    let kept : store_previous true away ≡ cache = stores_nothing away refl in
    subst (ShowsAgain entry)
      (sym (
        switch_changed (some here) none away (eq_comm page.id here.id ∙ differ)
        ∙ enter_cached here (entering (some here) (store_previous true away) away) entry message
            (ap (λ c. (Cache.get here.id c).1) kept ∙ held)))
      (refl, refl, refl, refl)

-- Leaving a conversation for a page without messages and coming back shows its rows again, the
-- newest 200 of them, without a loading state, and asks for a reconciliation, if rows were shown, no
-- newer ones were missing from them, and the cache was valid.
pub switch_back :
    (chat : Chat) (here page : Conversation)
    → IsValid chat.cache
    → chat.fetching_conversation_id ≡ some here.id
    → is_message_conversation (some here) ≡ true
    → is_message_conversation (some page) ≡ false
    → (here.id == []) ≡ false
    → (here.id == page.id) ≡ false
    → ltb 0 (length chat.messages) ≡ true
    → chat.has_newer_messages ≡ false
    → ((switch_conversation (some page) none false chat).0.messages ≡ [])
      × ShowsAgain (trim_entry (shown_rows chat)) (
          switch_conversation
            (some here)
            none
            false
            (switch_conversation (some page) none false chat).0)
switch_back chat here page valid at_ message plain named differ rows whole =
    let gone = leave chat here page at_ plain named differ rows whole in
    (
      ap (λ (c : Chat). c.messages) gone,
      subst
          (λ c.
            ShowsAgain (trim_entry (shown_rows chat))
              (switch_conversation (some here) none false c))
          (sym gone)
          (come_back chat here page _ (trim_entry (shown_rows chat)) message differ
            (get-set here.id (shown_rows chat) chat.cache valid)),
    )
