-- ===== src/Unread/Runs.antt =====
-- Runs of the handlers of frontend/src/hooks/useUnreadCounts.ts.
use remoteterm_meshcore.Prelude.{
  ℕ, ◌≡◌, refl, inl, inr, ap, ◌∙◌, Bool, true, false, Option, none, some, List, [], ◌∷◌, Text,
  arith, nat_eq, list_eq, option_eq, ◌==◌, eq_comm, Bool-cases, Option-cases,
}
use mathlib.Core.Path.{fun_ext, subst}
use remoteterm_meshcore.Prelude.JsMap
use remoteterm_meshcore.Prelude.JsMap.{JsMap}
use remoteterm_meshcore.Data.{Message, Conversation}
use remoteterm_meshcore.Unread.{
  UnreadCounts, Unread, TrackedType, readable, readable_key, state_key_of, get_state_key,
  apply_unreads, receive_unreads, lists_changed, show_conversation, record_message_event, mark_read,
  remove_conversation_state, mark_all_read, increment_unread,
}
use remoteterm_meshcore.Unread.Badges.{
  badge, Event, received, lists, shown, recorded, renamed, removed, all_read, step, run, newly_read,
  badge_after, shown_after, badges_step, badges_run, badges,
}
use remoteterm_meshcore.Unread.Refinement.{
  badge-mark_read, badge-apply_unreads, badge-record_message_event, badge-remove,
}
use remoteterm_meshcore.Unread.Renaming.{badge-rename, rename_same, active-rename}

badge-receive :
    (answer : Option UnreadCounts) (key : Text) (unread : Unread)
    → badge key (receive_unreads answer unread) ≡ badge_after (received answer) (badges unread) key
unfolding receive_unreads badge_after
badge-receive none key unread = elim (Option-cases (readable unread.active)) [
  | inl nowhere ↦ rw (nowhere, receive_unreads) refl
  | inr (target, there) ↦ rw (there, receive_unreads) refl
]
badge-receive (some answer) key unread = applied ∙ badge-apply_unreads answer key unread
  where
    applied :
        badge key (receive_unreads (some answer) unread) ≡ badge key (apply_unreads answer unread)
    applied = elim (Option-cases (readable unread.active)) [
      | inl nowhere ↦ rw (nowhere, receive_unreads) refl
      | inr (target, there) ↦ rw (there, receive_unreads) refl
    ]

newly_read-none :
    (target : Option (TrackedType × Text)) (shown_key : Option Text)
    → (state_key_of target == shown_key) ≡ true
    → newly_read target shown_key ≡ none
newly_read-none none shown_key same = refl
newly_read-none (some (kind, id)) shown_key same =
    ground (arith, eq_comm shown_key (some (get_state_key kind id)))

badge-show :
    (conversation : Option Conversation) (key : Text) (unread : Unread)
    → badge key (show_conversation conversation unread)
      ≡ badge_after (shown conversation) (badges unread) key
unfolding show_conversation badge_after
badge-show conversation key unread =
    elim (Bool-cases (readable_key conversation == readable_key unread.active)) [
      | inl same ↦
          rw (same, show_conversation, badge_after)
            (rw (newly_read-none (readable conversation) (readable_key unread.active) same) refl)
      | inr fresh ↦
          rw (fresh, show_conversation, badge_after)
            (elim (Option-cases (readable conversation)) [
              | inl nowhere ↦ rw nowhere refl
              | inr ((kind, id), there) ↦ rw there (
                  badge-mark_read kind id key _
                  ∙ rw
                      (eq_comm (readable_key unread.active) (some (get_state_key kind id))
                        ∙ subst (λ t. (state_key_of t == readable_key unread.active) ≡ false) there
                            fresh)
                      (ground arith))
            ])
    ]

badge-lists :
    (loaded : Bool) (key : Text) (unread : Unread)
    → badge key (lists_changed loaded unread).0 ≡ badge key unread
unfolding lists_changed
badge-lists false key unread = refl
badge-lists true key unread = elim (Bool-cases unread.has_observed_counts) [
  | inl seen ↦ rw (seen, lists_changed) refl
  | inr first ↦ rw (first, lists_changed) refl
]

badge-step :
    (event : Event) (unread : Unread) (key : Text)
    → badge key (step event unread) ≡ badge_after event (badges unread) key
unfolding step badge_after mark_all_read JsMap.get
badge-step (received answer) unread key = badge-receive answer key unread
badge-step (lists loaded) unread key = badge-lists loaded key unread
badge-step (shown conversation) unread key = badge-show conversation key unread
badge-step (recorded msg active is_new mention now) unread key =
    badge-record_message_event msg active is_new mention now key unread
badge-step (renamed old_key new_key) unread key = elim (Bool-cases (old_key == new_key)) [
  | inl same ↦ rw same (ap (badge key) (rename_same old_key new_key unread same))
  | inr differ ↦ rw differ (badge-rename old_key new_key key unread differ)
]
badge-step (removed gone) unread key = badge-remove gone key unread
badge-step all_read unread key = refl

active-receive :
    (answer : Option UnreadCounts) (unread : Unread)
    → (receive_unreads answer unread).active ≡ unread.active
unfolding receive_unreads apply_unreads
active-receive none unread = elim (Option-cases (readable unread.active)) [
  | inl nowhere ↦ rw (nowhere, receive_unreads) refl
  | inr (target, there) ↦ rw (there, receive_unreads) refl
]
active-receive (some answer) unread = elim (Option-cases (readable unread.active)) [
  | inl nowhere ↦ rw (nowhere, receive_unreads) refl
  | inr (target, there) ↦ rw (there, receive_unreads) refl
]

active-lists :
    (loaded : Bool) (unread : Unread) → (lists_changed loaded unread).0.active ≡ unread.active
unfolding lists_changed
active-lists loaded unread = ground arith

active-mark_read :
    (kind : TrackedType) (id : Text) (unread : Unread)
    → (mark_read kind id unread).active ≡ unread.active
unfolding mark_read
active-mark_read kind id unread = ground arith

active-show :
    (conversation : Option Conversation) (unread : Unread)
    → (show_conversation conversation unread).active ≡ conversation
unfolding show_conversation mark_read
active-show conversation unread =
    elim (Bool-cases (readable_key conversation == readable_key unread.active)) [
      | inl same ↦ rw (same, show_conversation) refl
      | inr fresh ↦
          rw (fresh, show_conversation)
            (elim (Option-cases (readable conversation)) [
              | inl nowhere ↦ rw nowhere refl
              | inr ((kind, id), there) ↦ rw there (active-mark_read kind id _)
            ])
    ]

active-record :
    (msg : Message) (active is_new mention : Bool) (now : ℕ) (unread : Unread)
    → (record_message_event msg active is_new mention now unread).active ≡ unread.active
unfolding record_message_event increment_unread
active-record msg active is_new mention now unread = ground arith

active-step :
    (event : Event) (unread : Unread)
    → readable_key (step event unread).active ≡ shown_after event (readable_key unread.active)
unfolding step mark_all_read remove_conversation_state
active-step (received answer) unread = ap readable_key (active-receive answer unread)
active-step (lists loaded) unread = ap readable_key (active-lists loaded unread)
active-step (shown conversation) unread = ap readable_key (active-show conversation unread)
active-step (recorded msg active is_new mention now) unread =
    ap readable_key (active-record msg active is_new mention now unread)
active-step (renamed old_key new_key) unread =
    ap readable_key (active-rename old_key new_key unread)
active-step (removed gone) unread = refl
active-step all_read unread = refl

badges-step :
    (event : Event) (unread : Unread)
    → badges (step event unread) ≡ badges_step event (badges unread)
badges-step event unread = λ i. record {
  shown_key = active-step event unread i;
  badge_of = fun_ext (badge-step event unread) i;
}

-- Over any events, from any state, what the maps of the hook show is what the abstract machine of
-- badges does: the key of the conversation shown, and for every key the count, whether the user is
-- mentioned, and the first unread message.
pub badges-run :
    (events : List Event) (unread : Unread)
    → badges (run events unread) ≡ badges_run events (badges unread)
unfolding run badges_run
badges-run [] unread = refl
badges-run (event ∷ events) unread =
    badges-run events (step event unread) ∙ ap (badges_run events) (badges-step event unread)
