-- ===== src/Tests/Unread.antt =====
-- The theorems about unread counts, at concrete events.
use remoteterm_meshcore.Prelude.{
  ◌≡◌, refl, inl, inr, ◌==◌, Bool-cases, true, false, none, some, List, [], ◌∷◌, Text, codes,
  nat_eq, list_eq, option_eq,
}
use remoteterm_meshcore.Prelude.JsMap
use remoteterm_meshcore.Data.{Conversation}
use remoteterm_meshcore.Data
use remoteterm_meshcore.Unread.{
  Unread, UnreadCounts, get_state_key, contact, readable, message_state_key,
}
use remoteterm_meshcore.Unread.Badges.{
  badge, badge_in, badges, Event, received, shown, recorded, renamed, run, badges_run,
}
use remoteterm_meshcore.Unread.Runs.{badges-run}
use remoteterm_meshcore.Unread.Laws.{is_sound, unread_start, run_sound, run-stale_boundary}
use remoteterm_meshcore.Tests.Messages.{hello, reply}

abbrev ada : Conversation
ada = record { kind = Data.contact; id = codes "ab"; name = codes "Ada"; map_focus_key = none }

abbrev ada_key : Text
ada_key = codes "contact-ab"

abbrev answer : UnreadCounts
answer = record {
  counts = (ada_key, 2) ∷ [];
  mentions = (ada_key, true) ∷ [];
  last_message_times = (ada_key, 1000) ∷ [];
  last_read_ats = [];
  first_unread_ids = some ((ada_key, some 7) ∷ []);
}

abbrev events : List Event
events =
    received (some answer)
    ∷ recorded hello false true true 0
    ∷ recorded reply false true false 0
    ∷ renamed ada_key (codes "contact-cd")
    ∷ shown (some ada)
    ∷ []

badges-run_example : badges (run events unread_start) ≡ badges_run events (badges unread_start)
badges-run_example = badges-run events unread_start

-- The badge of the answer that counts two messages, and those of all other keys.
answer_sound : (key : Text) → is_sound (badge_in answer key) ≡ true
unfolding JsMap.get
answer_sound key = elim (Bool-cases (ada_key == key)) [
  | inl same ↦ rw same refl
  | inr other ↦ rw other refl
]

run_sound_example : is_sound (badge (codes "contact-cd") (run events unread_start)) ≡ true
run_sound_example = run_sound events (codes "contact-cd") (answer_sound, (tt, (tt, (tt, (tt, tt)))))

abbrev unread_ada : Unread
unread_ada = record unread_start {
  unread_counts = (ada_key, 2) ∷ [];
  first_unread_ids = (ada_key, some 7) ∷ [];
}

ada-readable : readable (some ada) ≡ some (contact, codes "ab")
unfolding readable
ada-readable = refl

hello_key : message_state_key hello ≡ some (get_state_key contact (codes "ab"))
unfolding message_state_key
hello_key = refl

seven : (badge (get_state_key contact (codes "ab")) unread_ada).first_unread ≡ some 7
unfolding get_state_key JsMap.get
seven = refl

run-stale_boundary_example :
    badge
      (get_state_key contact (codes "ab"))
      (run (shown (some ada) ∷ shown none ∷ recorded hello false true false 5 ∷ []) unread_ada)
    ≡ record { count = 1; mention = false; first_unread = some 7 }
unfolding readable
run-stale_boundary_example =
    run-stale_boundary unread_ada ada contact (codes "ab") ada-readable refl refl none hello 7 5
      hello_key refl refl seven
