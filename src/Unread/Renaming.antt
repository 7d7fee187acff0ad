-- ===== src/Unread/Renaming.antt =====
-- `renameConversationState` of frontend/src/hooks/useUnreadCounts.ts against the machine of Unread/Badges.
use remoteterm_meshcore.Prelude.{
  ℕ, ◌+◌, ◌≡◌, refl, inl, inr, ◌∙◌, true, false, ◌||◌, Option, none, some, Text, arith, get_or,
  or_else, nat_eq, list_eq, option_eq, if◌then◌else◌, ◌==◌, eq_iff, eq_comm, Bool-cases,
  Option-cases,
}
use remoteterm_meshcore.Prelude.JsMap
use remoteterm_meshcore.Prelude.JsMap.{JsMap}
use remoteterm_meshcore.Unread.{
  Unread, boundary, rename_entry, add_counts, either_mention, first_boundary,
  rename_conversation_state,
}
use remoteterm_meshcore.Unread.Badges.{Badge, no_badge, badge, joined}

pub Badge-eq :
    {a b : Badge}
    → a.count ≡ b.count
    → a.mention ≡ b.mention
    → a.first_unread ≡ b.first_unread
    → a ≡ b
Badge-eq p q r = λ i. record { count = p i; mention = q i; first_unread = r i }

-- What stands at a key after an entry has moved from one key to another.
get_or-rename_entry {ℓ} :
    {V : Type ℓ} (merge : Option V → V → V) (old_key new_key key : Text) (m : JsMap Text V)
    → (old_key == new_key) ≡ false
    → JsMap.get key (rename_entry merge old_key new_key m) ≡ (elim (JsMap.get old_key m) [
      | none ↦ JsMap.get key m
      | some value ↦
          if key == old_key
          then none
          else if key == new_key
          then some (merge (JsMap.get new_key m) value)
          else JsMap.get key m
    ])
unfolding rename_entry
get_or-rename_entry merge old_key new_key key m differ = elim (Option-cases (JsMap.get old_key m)) [
  | inl clear ↦ rw (clear, rename_entry) refl
  | inr (value, held) ↦
      rw (held, rename_entry)
        (ground (
          arith,
          JsMap.get-delete old_key key (JsMap.set new_key (merge (JsMap.get new_key m) value) m),
          JsMap.get-set new_key key (merge (JsMap.get new_key m) value) m,
          eq_comm key old_key,
          eq_comm key new_key,
        ))
]

or_else-none : (o : Option ℕ) → or_else o none ≡ o
or_else-none none = refl
or_else-none (some n) = refl

-- With a default that is neutral: the two values are joined at the new key.
module _ {ℓ} {V : Type ℓ} (d : V) (join : V → V → V) (neutral : (v : V) → join v d ≡ v)
    (old_key new_key key : Text) (m : JsMap Text V) (differ : (old_key == new_key) ≡ false) where
  get_or-renamed :
      get_or (JsMap.get key (rename_entry (λ o v. join (get_or o d) v) old_key new_key m)) d ≡ (
        if key == old_key
        then d
        else if key == new_key
        then join (get_or (JsMap.get key m) d) (get_or (JsMap.get old_key m) d)
        else get_or (JsMap.get key m) d)
  get_or-renamed =
      rw (get_or-rename_entry (λ o v. join (get_or o d) v) old_key new_key key m differ)
        (elim (Option-cases (JsMap.get old_key m)) [
          | inl clear ↦ rw clear (elim (Bool-cases (key == old_key)) [
            | inl at_old ↦ rw (at_old, (eq_iff key old_key).0 at_old, clear) refl
            | inr off_old ↦ rw off_old (ground (arith, neutral (get_or (JsMap.get key m) d)))
          ])
          | inr (value, held) ↦ rw held (ground (arith, eq_iff key new_key))
        ])

pub badge-rename :
    (old_key new_key key : Text) (unread : Unread)
    → (old_key == new_key) ≡ false
    → badge key (rename_conversation_state old_key new_key unread) ≡ (
        if key == old_key
        then no_badge
        else if key == new_key
        then joined (badge key unread) (badge old_key unread)
        else badge key unread)
unfolding rename_conversation_state
badge-rename old_key new_key key unread differ =
    rw (differ, rename_conversation_state) (Badge-eq counts mentions firsts ∙ ground arith)
  where
    counts :
        get_or (JsMap.get key (rename_entry add_counts old_key new_key unread.unread_counts)) 0 ≡ (
          if key == old_key
          then 0
          else if key == new_key
          then (badge key unread).count + (badge old_key unread).count
          else (badge key unread).count)
    counts =
        get_or-renamed 0 (λ a b. a + b) (λ a. omega arith) old_key new_key key unread.unread_counts
          differ

    mentions :
        get_or (JsMap.get key (rename_entry either_mention old_key new_key unread.mentions)) false
        ≡ (if key == old_key
            then false
            else if key == new_key
            then (badge key unread).mention || (badge old_key unread).mention
            else (badge key unread).mention)
    mentions =
        get_or-renamed false (λ a b. a || b) (λ a. ground arith) old_key new_key key unread.mentions
          differ

    firsts : boundary key (rename_entry first_boundary old_key new_key unread.first_unread_ids) ≡ (
        if key == old_key
        then none
        else if key == new_key
        then or_else (badge key unread).first_unread (badge old_key unread).first_unread
        else (badge key unread).first_unread)
    firsts =
        get_or-renamed none (λ a b. or_else a b) or_else-none old_key new_key key
          unread.first_unread_ids differ

pub rename_same :
    (old_key new_key : Text) (unread : Unread)
    → (old_key == new_key) ≡ true
    → rename_conversation_state old_key new_key unread ≡ unread
unfolding rename_conversation_state
rename_same old_key new_key unread same = rw (same, rename_conversation_state) refl

pub active-rename :
    (old_key new_key : Text) (unread : Unread)
    → (rename_conversation_state old_key new_key unread).active ≡ unread.active
unfolding rename_conversation_state
active-rename old_key new_key unread = elim (Bool-cases (old_key == new_key)) [
  | inl same ↦ rw (same, rename_conversation_state) refl
  | inr differ ↦ rw (differ, rename_conversation_state) refl
]
