-- ===== src/Prelude/Equality.antt =====
-- `===` on the program's values, as an interface with an instance for each type of key.
use Prim.Native.Nat.{ℕ}
use mathlib.Core.Path.{◌≡◌, refl, ap, ◌∙◌}
use mathlib.Core.Logic.{◌↔◌, inl, inr}
use mathlib.Core.Bool.{Bool, true, false, ◌&&◌, ◌||◌}
use mathlib.Core.Option.{Option, none, some}
use mathlib.Core.List.{List, [], ◌∷◌, ◌++◌}
use native.Mathlib.Omega.{arith}
use remoteterm_meshcore.Prelude.Lists.{All}
use remoteterm_meshcore.Prelude.Tests.{nat_beq, nat_beq_iff, if◌then◌else◌, Bool-cases}

pub record Eq {ℓ} (A : Type ℓ) : Type ℓ where
  pub beq : A → A → Bool
  pub beq_iff : (x y : A) → (beq x y ≡ true) ↔ (x ≡ y)

infix 50 ◌==◌
abbrev pub ◌==◌ {ℓ} : {A : Type ℓ} ⦃e : Eq A⦄ → A → A → Bool
◌==◌ ⦃e⦄ = e.beq

module _ {ℓ} {A : Type ℓ} ⦃e : Eq A⦄ where
  pub eq_iff : (a b : A) → ((a == b) ≡ true) ↔ (a ≡ b)
  eq_iff = e.beq_iff

  pub eq_refl : (a : A) → (a == a) ≡ true
  eq_refl a = (e.beq_iff a a).1 refl

  pub eq_comm : (a b : A) → (a == b) ≡ (b == a)
  eq_comm a b = ground (arith, e.beq_iff a b, e.beq_iff b a)

  abbrev pub option_beq : Option A → Option A → Bool
  option_beq none none = true
  option_beq (some a) (some b) = a == b
  option_beq _ _ = false

  pub option_beq_iff : (a b : Option A) → (option_beq a b ≡ true) ↔ (a ≡ b)
  option_beq_iff none none = (λ h. refl, λ h. refl)
  option_beq_iff none (some b) = (λ h. cc, λ h. cc)
  option_beq_iff (some a) none = (λ h. cc, λ h. cc)
  option_beq_iff (some a) (some b) =
      (λ h. ap some ((e.beq_iff a b).0 h), λ h. (e.beq_iff a b).1 (cc))

  abbrev pub list_beq : List A → List A → Bool
  list_beq [] [] = true
  list_beq (x ∷ xs) (y ∷ ys) = x == y && list_beq xs ys
  list_beq _ _ = false

  pub list_beq_iff : (a b : List A) → (list_beq a b ≡ true) ↔ (a ≡ b)
  list_beq_iff [] [] = (λ h. refl, λ h. refl)
  list_beq_iff [] (y ∷ b) = (λ h. cc, λ h. cc)
  list_beq_iff (x ∷ a) [] = (λ h. cc, λ h. cc)
  list_beq_iff (x ∷ a) (y ∷ b) = (
    λ h. ground (arith, e.beq_iff x y, list_beq_iff a b),
    λ h. ground (arith, e.beq_iff x y, list_beq_iff a b),
  )

  -- `arr.includes(a)`, and `set.has(a)` of a set kept in insertion order
  unfoldable pub contains : List A → A → Bool
  contains [] a = false
  contains (x ∷ xs) a = x == a || contains xs a

  pub contains-append :
      (xs ys : List A) (a : A) → contains (xs ++ ys) a ≡ (contains xs a || contains ys a)
  unfolding contains
  contains-append [] ys a = refl
  contains-append (x ∷ xs) ys a = ground (arith, contains-append xs ys a)

  -- `set.add(a)`
  unfoldable pub insert : A → List A → List A
  insert a xs = if contains xs a then xs else xs ++ a ∷ []

  pub contains-insert :
      (a b : A) (xs : List A) → contains (insert a xs) b ≡ (a == b || contains xs b)
  unfolding insert contains
  contains-insert a b xs = ground (arith, contains-append xs (a ∷ []) b, e.beq_iff a b)

  -- `new Set([...set, ...xs])`
  unfoldable pub insert_all : List A → List A → List A
  insert_all set [] = set
  insert_all set (x ∷ xs) = insert_all (insert x set) xs

  pub contains-insert_all :
      (set xs : List A) (b : A) → contains (insert_all set xs) b ≡ (contains set b || contains xs b)
  unfolding insert_all contains
  contains-insert_all set [] b = ground arith
  contains-insert_all set (x ∷ xs) b =
      ground (arith, contains-insert_all (insert x set) xs b, contains-insert x b set)

  -- `new Set(xs)`
  pub contains-insert_all_nil :
      (xs : List A) (b : A) → contains (insert_all [] xs) b ≡ contains xs b
  unfolding contains
  contains-insert_all_nil xs b = contains-insert_all [] xs b

  -- No element stands twice.
  abbrev pub IsDistinct : List A → Type 0
  IsDistinct [] = Unit
  IsDistinct (x ∷ xs) = (contains xs x ≡ false) × IsDistinct xs

  pub IsDistinct-concat :
      (xs : List A) (a : A) → IsDistinct xs → contains xs a ≡ false → IsDistinct (xs ++ a ∷ [])
  unfolding contains
  IsDistinct-concat [] a d h = (refl, tt)
  IsDistinct-concat (x ∷ xs) a d h = (
    ground (arith, contains-append xs (a ∷ []) x, e.beq_iff x a, e.beq_iff a x),
    IsDistinct-concat xs a d.1 (ground arith),
  )

  pub IsDistinct-append :
      (xs ys : List A)
      → IsDistinct xs
      → IsDistinct ys
      → All (λ x. contains ys x ≡ false) xs
      → IsDistinct (xs ++ ys)
  unfolding contains
  IsDistinct-append [] ys d c h = c
  IsDistinct-append (x ∷ xs) ys d c h =
      (contains-append xs ys x ∙ ground (arith, d.0, h.0), IsDistinct-append xs ys d.1 c h.1)

  -- What holds of all that a list contains holds of its elements.
  pub All_of_contains {κ} :
      (P : A → Type κ) (xs : List A) → ((a : A) → contains xs a ≡ true → P a) → All P xs
  unfolding contains
  All_of_contains P [] h = tt
  All_of_contains P (x ∷ xs) h =
      (h x (rw (eq_refl x)), All_of_contains P xs (λ a c. h a (ground (arith, c))))

  -- A list of elements that are not in `set` has nothing that is.
  pub contains_disjoint :
      (set xs : List A) (a : A)
      → All (λ x. contains set x ≡ false) xs
      → contains set a ≡ true
      → contains xs a ≡ false
  unfolding contains
  contains_disjoint set [] a h p = refl
  contains_disjoint set (x ∷ xs) a h p = elim (Bool-cases (x == a)) [
    | inl same ↦ cc (ap (contains set) ((e.beq_iff x a).0 same))
    | inr other ↦ rw other (contains_disjoint set xs a h.1 p)
  ]

  pub contains-insert_self : (a : A) (xs : List A) → contains (insert a xs) a ≡ true
  contains-insert_self a xs = ground (arith, contains-insert a a xs, eq_refl a)

instance abbrev pub nat_eq : Eq ℕ
nat_eq = record { beq = nat_beq; beq_iff = nat_beq_iff }

instance abbrev pub option_eq {ℓ} : {A : Type ℓ} ⦃e : Eq A⦄ → Eq (Option A)
option_eq = record { beq = option_beq; beq_iff = option_beq_iff }

instance abbrev pub list_eq {ℓ} : {A : Type ℓ} ⦃e : Eq A⦄ → Eq (List A)
list_eq = record { beq = list_beq; beq_iff = list_beq_iff }
