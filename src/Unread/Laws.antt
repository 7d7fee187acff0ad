-- ===== src/Unread/Laws.antt =====
-- What runs of the handlers of frontend/src/hooks/useUnreadCounts.ts keep and forget.
use remoteterm_meshcore.Prelude.{
  ℕ, ◌≡◌, refl, ap, sym, ◌∙◌, Bool, true, false, not, ◌&&◌, ◌||◌, Option, none, some, List, [], ◌∷◌,
  Text, arith, All, ltb, is_some, nat_eq, list_eq, option_eq, ◌==◌, eq_refl,
}
use mathlib.Core.Path.{subst}
use remoteterm_meshcore.Prelude.JsMap
use remoteterm_meshcore.Prelude.JsMap.{JsMap}
use remoteterm_meshcore.Data.{Message, Conversation}
use remoteterm_meshcore.Unread.{
  Unread, TrackedType, readable, readable_key, state_key_of, get_state_key, message_state_key,
}
use remoteterm_meshcore.Unread.Badges.{
  Badge, badge, badge_in, Event, received, lists, shown, recorded, renamed, removed, all_read, run,
  Badges, read_badge, newly_read, badge_after, badges_step, badges_run, badges,
}
use remoteterm_meshcore.Unread.Runs.{badges-run}

-- A badge that mentions the user counts a message, and one that counts a message has a boundary.
abbrev pub is_sound : Badge → Bool
is_sound b = (not b.mention || ltb 0 b.count) && (not (ltb 0 b.count) || is_some b.first_unread)

-- The answers of the server among the events are sound at every key.
abbrev pub HasSoundAnswer : Event → Type 0
HasSoundAnswer (received (some answer)) = (key : Text) → is_sound (badge_in answer key) ≡ true
HasSoundAnswer _ = Unit

abbrev pub unread_start : Unread
unread_start = record {
  unread_counts = [];
  mentions = [];
  last_message_times = [];
  unread_last_read_ats = [];
  first_unread_ids = [];
  times_cache = [];
  active = none;
  has_observed_counts = false;
  requests = [];
}

abbrev AllSound : Badges → Type 0
AllSound b = (key : Text) → is_sound (b.badge_of key) ≡ true

badge_after_sound :
    (event : Event) (b : Badges)
    → HasSoundAnswer event
    → AllSound b
    → (key : Text) → is_sound (badge_after event b key) ≡ true
unfolding badge_after
badge_after_sound (received none) b h all key = all key
badge_after_sound (received (some answer)) b h all key = ground (arith, h key)
badge_after_sound (lists loaded) b h all key = all key
badge_after_sound (shown conversation) b h all key = ground (arith, all key)
badge_after_sound (recorded msg active is_new mention now) b h all key = ground (arith, all key)
badge_after_sound (renamed old_key new_key) b h all key = ground (arith, all key, all old_key)
badge_after_sound (removed gone) b h all key = ground (arith, all key)
badge_after_sound all_read b h all key = refl

badges_run_sound :
    (events : List Event) (b : Badges)
    → All HasSoundAnswer events
    → AllSound b
    → AllSound (badges_run events b)
unfolding badges_run
badges_run_sound [] b h all = all
badges_run_sound (event ∷ events) b h all =
    badges_run_sound events (badges_step event b) h.1 (badge_after_sound event b h.0 all)

-- After any events, from the start, a badge that mentions the user counts a message, and a badge that
-- counts a message has a first unread message, if that holds of each answer of the server among them.
pub run_sound :
    (events : List Event) (key : Text)
    → All HasSoundAnswer events
    → is_sound (badge key (run events unread_start)) ≡ true
unfolding JsMap.get
run_sound events key h =
    subst (λ b. AllSound b) (sym (badges-run events unread_start))
      (badges_run_sound events (badges unread_start) h (λ k. refl)) key

newly_read_fresh :
    (kind : TrackedType) (id : Text) (shown_key : Option Text)
    → (id == []) ≡ false
    → (shown_key == some (get_state_key kind id)) ≡ false
    → newly_read (some (kind, id)) shown_key ≡ some (get_state_key kind id)
newly_read_fresh kind id shown_key named away = rw (named, away) refl

newly_read_other :
    (target : Option (TrackedType × Text)) (shown_key : Option Text) (key : Text)
    → (state_key_of target == some key) ≡ false
    → (newly_read target shown_key == some key) ≡ false
newly_read_other none shown_key key h = refl
newly_read_other (some (kind, id)) shown_key key h = ground arith

module _ (unread : Unread) (conversation : Conversation) (kind : TrackedType) (id : Text)
    (target : readable (some conversation) ≡ some (kind, id)) (named : (id == []) ≡ false)
    (away : (readable_key unread.active == some (get_state_key kind id)) ≡ false) where
  badge_after-shown :
      badge_after (shown (some conversation)) (badges unread) (get_state_key kind id)
      ≡ read_badge (badge (get_state_key kind id) unread)
  unfolding badge_after
  badge_after-shown = rw target (
      rw (newly_read_fresh kind id (readable_key unread.active) named away)
        (rw (eq_refl (some (get_state_key kind id))) refl))

  -- A conversation with a first unread message is shown, left again, and then gets a message from
  -- another node: it counts one message, but its first unread message is the one from before, if its
  -- id is not empty, it was not shown before, and what is shown in between is another conversation.
  pub run-stale_boundary :
      (other : Option Conversation) (msg : Message) (first now : ℕ)
      → message_state_key msg ≡ some (get_state_key kind id)
      → (readable_key other == some (get_state_key kind id)) ≡ false
      → msg.outgoing ≡ false
      → (badge (get_state_key kind id) unread).first_unread ≡ some first
      → badge (get_state_key kind id) (
          run
            (shown (some conversation) ∷ shown other ∷ recorded msg false true false now ∷ [])
            unread)
        ≡ record { count = 1; mention = false; first_unread = some first }
  unfolding badges_run badge_after
  run-stale_boundary other msg first now same left incoming held =
      ap (λ (b : Badges). b.badge_of (get_state_key kind id)) (badges-run _ unread)
      ∙ rw (same, eq_refl (some (get_state_key kind id)), incoming)
          (rw
            (newly_read_other (readable other) (readable_key (some conversation))
              (get_state_key kind id) left)
            (rw badge_after-shown (rw held refl)))
