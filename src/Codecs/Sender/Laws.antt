-- ===== src/Codecs/Sender/Laws.antt =====
-- Senders and channel references that frontend/src/utils/messageParser.ts finds.
use remoteterm_meshcore.Prelude.{
  ℕ, suc, ◌+◌, ◌-◌, ◌<◌, ◌≡◌, refl, ap, inl, inr, Bool, true, false, ◌&&◌, ◌||◌, some, [], ◌∷◌,
  ◌++◌, append_assoc, Text, codes, arith, All, length, length-append, take, drop, slice, nat_eq,
  nat_beq, contains, starts_with, is_space, drop-append_self, Bool-cases, Option-cases,
}
use mathlib.Core.Path.{subst}
use remoteterm_meshcore.Codecs.Sender.{
  split_colon, parse_sender_from_text, HashtagChannelReference, is_label_unit, label_run, is_label,
  ends_label, match_label, references_from, find_linked_channel_references,
}

split_colon-append :
    (sender content : Text)
    → contains sender b':' ≡ false
    → split_colon (sender ++ (codes ": " ++ content)) ≡ some (sender, content)
unfolding split_colon contains starts_with
split_colon-append [] content h = refl
split_colon-append (c ∷ sender) content h =
    let rest = split_colon-append sender content (ground arith) in rw rest (ground arith)

-- A message of a sender whose name has at least one and less than 50 characters and no colon is
-- taken apart into that name and the rest.
pub parse_sender_from_text-append :
    (sender content : Text)
    → contains sender b':' ≡ false
    → 0 < length sender
    → length sender < 50
    → parse_sender_from_text (sender ++ (codes ": " ++ content))
      ≡ record { sender = some sender; content = content }
unfolding parse_sender_from_text
parse_sender_from_text-append sender content plain named short =
    rw (split_colon-append sender content plain, parse_sender_from_text) (ground arith)

label_run-take : (s : Text) → take (length (label_run s)) s ≡ label_run s
unfolding label_run
label_run-take [] = refl
label_run-take (c ∷ s) = elim (Bool-cases (is_label_unit c || nat_beq c b'-')) [
  | inl inside ↦ rw inside (ap (◌∷◌ c) (label_run-take s))
  | inr outside ↦ rw outside refl
]

match_label-take : (s label : Text) → match_label s ≡ some label → take (length label) s ≡ label
unfolding match_label
match_label-take [] label h = absurd (cc h)
match_label-take (c ∷ s) label h =
    elim (Bool-cases (
      nat_beq c b'#'
      && is_label true (label_run s)
      && ends_label (drop (length (label_run s)) s))) [
        | inl fits ↦
            let same : (c ∷ label_run s) ≡ label = ground arith in
            rw (← same) (ap (◌∷◌ c) (label_run-take s))
        | inr not_one ↦ absurd (ground arith)
      ]

-- What a reference says of the text from an index on.
abbrev pub IsAt : Text → HashtagChannelReference → Type 0
IsAt text r = (slice r.start r.end text ≡ r.label) × (r.end ≡ r.start + length r.label)

references_from-IsAt :
    (before s : Text) (index : ℕ) (free : Bool)
    → length before ≡ index
    → All (IsAt (before ++ s)) (references_from index free s)
unfolding references_from
references_from-IsAt before [] index free h = tt
references_from-IsAt before (c ∷ s) index free h =
    let rest : All (IsAt (before ++ (c ∷ s))) (references_from (suc index) (is_space c) s) =
      subst (λ t. All (IsAt t) (references_from (suc index) (is_space c) s))
        (append_assoc before (c ∷ []) s)
        (references_from-IsAt (before ++ (c ∷ [])) s (suc index) (is_space c)
          (omega (arith, length-append before (c ∷ []), h))) in
    elim (Bool-cases free) [
      | inr inside ↦ rw inside rest
      | inl open_ ↦ rw open_ (elim (Option-cases (match_label (c ∷ s))) [
        | inl absent ↦ rw absent rest
        | inr (label, there) ↦ rw there ((here label there, refl), rest)
      ])
    ]
  where
    here :
        (label : Text)
        → match_label (c ∷ s) ≡ some label
        → slice index (index + length label) (before ++ (c ∷ s)) ≡ label
    here label there =
        let left : drop index (before ++ (c ∷ s)) ≡ c ∷ s =
          subst (λ n. drop n (before ++ (c ∷ s)) ≡ c ∷ s) h (drop-append_self before (c ∷ s)) in
        let width : index + length label - index ≡ length label = omega arith in
        rw (width, left) (match_label-take (c ∷ s) label there)

-- Every reference that is found is the text between its start and its end.
pub find_linked_channel_references_lem :
    (text : Text) → All (IsAt text) (find_linked_channel_references text)
unfolding find_linked_channel_references
find_linked_channel_references_lem text = references_from-IsAt [] text 0 true refl
