-- ===== src/Unread/Refinement.antt =====
-- The handlers of frontend/src/hooks/useUnreadCounts.ts against the machine of Unread/Badges.
use remoteterm_meshcore.Prelude.{
  ℕ, ◌+◌, ◌≡◌, refl, inl, inr, ◌∙◌, Bool, true, false, not, ◌&&◌, Option, none, some, [], Text,
  arith, get_or, nat_eq, list_eq, option_eq, if◌then◌else◌, ◌==◌, eq_iff, eq_comm, Bool-cases,
  Option-cases,
}
use remoteterm_meshcore.Prelude.JsMap
use remoteterm_meshcore.Prelude.JsMap.{JsMap}
use remoteterm_meshcore.Data.{Message}
use remoteterm_meshcore.Unread.{
  UnreadCounts, Unread, TrackedType, readable_key, get_state_key, message_state_key, clear_count,
  clear_mention, without_active, mark_read, apply_unreads, increment_unread, record_message_event,
  remove_conversation_state,
}
use remoteterm_meshcore.Unread.Badges.{no_badge, badge, read_badge, bumped, badge_in, raises}
use remoteterm_meshcore.Unread.Renaming.{Badge-eq}

get_or-clear_count :
    (key other : Text) (m : JsMap Text ℕ)
    → get_or (JsMap.get other (clear_count key m)) 0
      ≡ (if key == other then 0 else get_or (JsMap.get other m) 0)
get_or-clear_count key other m = ground (arith, JsMap.get-delete key other m, eq_iff key other)

get_or-clear_mention :
    (key other : Text) (m : JsMap Text Bool)
    → get_or (JsMap.get other (clear_mention key m)) false
      ≡ (if key == other then false else get_or (JsMap.get other m) false)
get_or-clear_mention key other m = ground (arith, JsMap.get-delete key other m, eq_iff key other)

-- One lemma for each handler: the badge of a key after it.
pub badge-mark_read :
    (kind : TrackedType) (id key : Text) (unread : Unread)
    → badge key (mark_read kind id unread) ≡ (
        if not (id == []) && get_state_key kind id == key
        then read_badge (badge key unread)
        else badge key unread)
unfolding mark_read
badge-mark_read kind id key unread = elim (Bool-cases (id == [])) [
  | inl empty ↦ rw (empty, mark_read) refl
  | inr named ↦
      rw (named, mark_read)
        (elim (Bool-cases (get_state_key kind id == key)) [
          | inl same ↦ rw same (
              Badge-eq
                (get_or-clear_count (get_state_key kind id) key unread.unread_counts ∙ rw same refl)
                (get_or-clear_mention (get_state_key kind id) key unread.mentions ∙ rw same refl)
                refl)
          | inr other ↦ rw other (
              Badge-eq
                (get_or-clear_count (get_state_key kind id) key unread.unread_counts
                  ∙ rw other refl)
                (get_or-clear_mention (get_state_key kind id) key unread.mentions ∙ rw other refl)
                refl)
        ])
]

pub badge-increment_unread :
    (state_key : Text) (id : ℕ) (mention : Bool) (key : Text) (unread : Unread)
    → badge key (increment_unread state_key id mention unread)
      ≡ (if state_key == key then bumped id mention (badge key unread) else badge key unread)
unfolding increment_unread
badge-increment_unread state_key id mention key unread = elim (Bool-cases (state_key == key)) [
  | inl same ↦ rw same (
      Badge-eq
        (rw (← (eq_iff state_key key).0 same)
          (rw (JsMap.get-set_self state_key (count + 1) unread.unread_counts) refl))
        (rw (← (eq_iff state_key key).0 same)
          (ground (arith, JsMap.get-set_self state_key true unread.mentions)))
        (rw (← (eq_iff state_key key).0 same)
          (ground (arith, JsMap.get-set_self state_key (some id) unread.first_unread_ids))))
  | inr other ↦ rw other (
      Badge-eq (rw (JsMap.get-set state_key key (count + 1) unread.unread_counts, other) refl)
        (ground (arith, JsMap.get-set state_key key true unread.mentions))
        (ground (arith, JsMap.get-set state_key key (some id) unread.first_unread_ids)))
]
  where
    count : ℕ
    count = get_or (JsMap.get state_key unread.unread_counts) 0

without-lookup {ℓ} :
    {V : Type ℓ} (shown_key : Option Text) (key : Text) (m : JsMap Text V)
    → JsMap.get key (without_active shown_key m)
      ≡ (if shown_key == some key then none else JsMap.get key m)
without-lookup none key m = refl
without-lookup (some active_key) key m = JsMap.get-delete active_key key m

pub badge-apply_unreads :
    (answer : UnreadCounts) (key : Text) (unread : Unread)
    → badge key (apply_unreads answer unread) ≡ (
        if readable_key unread.active == some key
        then read_badge (badge_in answer key)
        else badge_in answer key)
unfolding apply_unreads
badge-apply_unreads answer key unread = elim (Bool-cases (readable_key unread.active == some key)) [
  | inl same ↦ rw same (
      Badge-eq (rw (without-lookup (readable_key unread.active) key answer.counts, same) refl)
        (rw (without-lookup (readable_key unread.active) key answer.mentions, same) refl) refl)
  | inr other ↦ rw other (
      Badge-eq (rw (without-lookup (readable_key unread.active) key answer.counts, other) refl)
        (rw (without-lookup (readable_key unread.active) key answer.mentions, other) refl) refl)
]

pub badge-record_message_event :
    (msg : Message) (active is_new mention : Bool) (now : ℕ) (key : Text) (unread : Unread)
    → badge key (record_message_event msg active is_new mention now unread) ≡ (
        if raises msg active is_new && message_state_key msg == some key
        then bumped msg.id mention (badge key unread)
        else badge key unread)
unfolding record_message_event
badge-record_message_event msg active is_new mention now key unread =
    elim (Option-cases (message_state_key msg)) [
      | inl absent ↦
          rw (absent, record_message_event)
            (elim (Bool-cases (raises msg active is_new)) [
              | inl raised ↦ rw raised refl
              | inr quiet ↦ rw quiet refl
            ])
      | inr (state_key, given) ↦
          rw (given, record_message_event)
            (elim (Bool-cases (raises msg active is_new)) [
              | inl raised ↦ rw raised (badge-increment_unread state_key msg.id mention key _)
              | inr quiet ↦ rw quiet refl
            ])
    ]

pub badge-remove :
    (gone key : Text) (unread : Unread)
    → badge key (remove_conversation_state gone unread)
      ≡ (if key == gone then no_badge else badge key unread)
unfolding remove_conversation_state
badge-remove gone key unread = rw (eq_comm key gone) (elim (Bool-cases (gone == key)) [
  | inl same ↦ rw same (
      Badge-eq (rw (JsMap.get-delete gone key unread.unread_counts, same) refl)
        (rw (JsMap.get-delete gone key unread.mentions, same) refl)
        (rw (JsMap.get-delete gone key unread.first_unread_ids, same) refl))
  | inr other ↦ rw other (
      Badge-eq (rw (JsMap.get-delete gone key unread.unread_counts, other) refl)
        (rw (JsMap.get-delete gone key unread.mentions, other) refl)
        (rw (JsMap.get-delete gone key unread.first_unread_ids, other) refl))
])
