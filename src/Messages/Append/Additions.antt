-- ===== src/Messages/Append/Additions.antt =====
-- The messages that `appendUniqueMessages` of frontend/src/hooks/useConversationMessages.ts adds.
use remoteterm_meshcore.Prelude.{
  ℕ, ◌≡◌, refl, sym, inl, inr, Bool, true, false, ◌||◌, List, [], ◌∷◌, Text, arith, All, All_imp,
  nat_eq, list_eq, Bool-cases, eq_refl, contains, insert, contains-insert, contains-insert_self,
  contains_disjoint, IsDistinct,
}
use mathlib.Core.Path.{subst}
use remoteterm_meshcore.Data.{Message}
use remoteterm_meshcore.Messages.Key.{
  get_message_content_key, content_keys, ids, ids_of_All, content_keys_of_All,
}
use remoteterm_meshcore.Messages.Append.{additions}

-- `m` counts as seen.
abbrev seen : List ℕ → List Text → Message → Bool
seen seen_ids seen_content m =
    contains seen_ids m.id || contains seen_content (get_message_content_key m)

-- `m` was seen neither by id nor by key.
abbrev IsFresh : List ℕ → List Text → Message → Type 0
IsFresh seen_ids seen_content m =
    (contains seen_ids m.id ≡ false) × (contains seen_content (get_message_content_key m) ≡ false)

-- Nothing added was seen before.
additions-IsFresh :
    (seen_ids : List ℕ) (seen_content : List Text) (incoming : List Message)
    → All (IsFresh seen_ids seen_content) (additions seen_ids seen_content incoming)
unfolding additions
additions-IsFresh seen_ids seen_content [] = tt
additions-IsFresh seen_ids seen_content (msg ∷ incoming) =
    elim (Bool-cases (seen seen_ids seen_content msg)) [
      | inl old ↦ rw (old, additions) (additions-IsFresh seen_ids seen_content incoming)
      | inr new ↦
          rw (new, additions)
            (
              (ground arith, ground arith),
              All_imp _ _
                  (additions (insert msg.id seen_ids)
                    (insert (get_message_content_key msg) seen_content) incoming)
                  (λ m p. (
                    ground (arith, contains-insert msg.id m.id seen_ids, p.0),
                    ground (
                      arith,
                      contains-insert (get_message_content_key msg) (get_message_content_key m)
                          seen_content,
                      p.1,
                    ),
                  ))
                  (additions-IsFresh (insert msg.id seen_ids)
                    (insert (get_message_content_key msg) seen_content) incoming),
            )
    ]

pub fresh_ids :
    (seen_ids : List ℕ) (seen_content : List Text) (incoming : List Message)
    → All (λ k. contains seen_ids k ≡ false) (ids (additions seen_ids seen_content incoming))
fresh_ids seen_ids seen_content incoming = ids_of_All _ (additions seen_ids seen_content incoming) (
    All_imp _ _ (additions seen_ids seen_content incoming) (λ m p. p.0)
      (additions-IsFresh seen_ids seen_content incoming))

pub fresh_keys :
    (seen_ids : List ℕ) (seen_content : List Text) (incoming : List Message)
    → All
        (λ k. contains seen_content k ≡ false)
        (content_keys (additions seen_ids seen_content incoming))
fresh_keys seen_ids seen_content incoming =
    content_keys_of_All _ (additions seen_ids seen_content incoming) (
      All_imp _ _ (additions seen_ids seen_content incoming) (λ m p. p.1)
        (additions-IsFresh seen_ids seen_content incoming))

pub additions-IsDistinct :
    (seen_ids : List ℕ) (seen_content : List Text) (incoming : List Message)
    → IsDistinct (ids (additions seen_ids seen_content incoming))
      × IsDistinct (content_keys (additions seen_ids seen_content incoming))
unfolding additions
additions-IsDistinct seen_ids seen_content [] = (tt, tt)
additions-IsDistinct seen_ids seen_content (msg ∷ incoming) =
    elim (Bool-cases (seen seen_ids seen_content msg)) [
      | inl old ↦ rw (old, additions) (additions-IsDistinct seen_ids seen_content incoming)
      | inr new ↦
          rw (new, additions)
            (let key : Text = get_message_content_key msg in
              let seen_ids' : List ℕ = insert msg.id seen_ids in
              let seen_content' : List Text = insert key seen_content in
              let rest = additions-IsDistinct seen_ids' seen_content' incoming in
              (
                (
                  contains_disjoint seen_ids' _ msg.id (fresh_ids seen_ids' seen_content' incoming)
                      (contains-insert_self msg.id seen_ids),
                  rest.0,
                ),
                (
                  contains_disjoint seen_content' _ key
                      (fresh_keys seen_ids' seen_content' incoming)
                      (contains-insert_self key seen_content),
                  rest.1,
                ),
              ))
    ]

-- `m` is among what was seen or among the messages added, by its id or by its key.
abbrev pub covered : List ℕ → List Text → List Message → Message → Bool
covered seen_ids seen_content added m =
    (contains seen_ids m.id || contains (ids added) m.id)
    || (contains seen_content (get_message_content_key m)
        || contains (content_keys added) (get_message_content_key m))

module _ (seen_ids : List ℕ) (seen_content : List Text) (msg : Message)
    (incoming : List Message) where
  additions_old :
      seen seen_ids seen_content msg ≡ true
      → additions seen_ids seen_content (msg ∷ incoming) ≡ additions seen_ids seen_content incoming
  unfolding additions
  additions_old old = rw (old, additions)

  additions_new :
      seen seen_ids seen_content msg ≡ false
      → additions seen_ids seen_content (msg ∷ incoming)
        ≡ msg
          ∷ additions
              (insert msg.id seen_ids)
              (insert (get_message_content_key msg) seen_content)
              incoming
  unfolding additions
  additions_new new = rw (new, additions)

  -- One more message added covers as much as the same message seen.
  covered-insert :
      (added : List Message) (m : Message)
      → covered (insert msg.id seen_ids) (insert (get_message_content_key msg) seen_content) added m
        ≡ true
      → covered seen_ids seen_content (msg ∷ added) m ≡ true
  unfolding contains
  covered-insert added m p = ground (
    arith,
    p,
    contains-insert msg.id m.id seen_ids,
    contains-insert (get_message_content_key msg) (get_message_content_key m) seen_content,
  )

  covered_head : (added : List Message) → covered seen_ids seen_content (msg ∷ added) msg ≡ true
  unfolding contains
  covered_head added = ground (arith, eq_refl msg.id)

pub additions_complete :
    (seen_ids : List ℕ) (seen_content : List Text) (incoming : List Message)
    → All
        (λ m. covered seen_ids seen_content (additions seen_ids seen_content incoming) m ≡ true)
        incoming
additions_complete seen_ids seen_content [] = tt
additions_complete seen_ids seen_content (msg ∷ incoming) =
    elim (Bool-cases (seen seen_ids seen_content msg)) [
      | inl old ↦
          subst (λ added. All (λ m. covered seen_ids seen_content added m ≡ true) (msg ∷ incoming))
            (sym (additions_old seen_ids seen_content msg incoming old))
            (ground arith, additions_complete seen_ids seen_content incoming)
      | inr new ↦
          subst (λ added. All (λ m. covered seen_ids seen_content added m ≡ true) (msg ∷ incoming))
            (sym (additions_new seen_ids seen_content msg incoming new))
            (
              covered_head seen_ids seen_content msg incoming _,
              All_imp _ _ incoming (covered-insert seen_ids seen_content msg incoming _) (
                  additions_complete (insert msg.id seen_ids)
                    (insert (get_message_content_key msg) seen_content) incoming),
            )
    ]

pub additions_none :
    (seen_ids : List ℕ) (seen_content : List Text) (incoming : List Message)
    → All (λ m. seen seen_ids seen_content m ≡ true) incoming
    → additions seen_ids seen_content incoming ≡ []
unfolding additions
additions_none seen_ids seen_content [] h = refl
additions_none seen_ids seen_content (msg ∷ incoming) h =
    rw (h.0, additions) (additions_none seen_ids seen_content incoming h.1)
