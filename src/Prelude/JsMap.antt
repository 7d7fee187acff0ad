-- ===== src/Prelude/JsMap.antt =====
-- The `Map` of JavaScript: entries in insertion order. Writing to a key that is there keeps its
-- place, deleting and writing again moves it to the end. An object that the program changes inside
-- a map is written back at its key.
pub mod Entries
use Prim.Native.Nat.{ℕ, suc, ◌+◌, ◌-◌, ◌≤◌, ◌<◌}
use mathlib.Core.Path.{◌≡◌, refl, subst, sym, ◌∙◌, ap}
use mathlib.Core.Logic.{◌↔◌, inl, inr}
use mathlib.Core.Bool.{Bool, true, false, ◌||◌}
use mathlib.Core.Option.{Option, none, some}
use mathlib.Core.List.{List, [], ◌∷◌, ◌++◌, map}
use native.Mathlib.Omega.{arith}
use remoteterm_meshcore.Prelude.Tests.{ltb, if◌then◌else◌, Bool-cases, is_some}
use remoteterm_meshcore.Prelude.Lists.{length, All}
use remoteterm_meshcore.Prelude.Equality.{Eq, ◌==◌, eq_refl, contains, IsDistinct}

abbrev pub JsMap {ℓ κ} : Type ℓ → Type κ → Type (ℓ ⊔ κ)
JsMap K V = List (K × V)

module _ {ℓ κ} {K : Type ℓ} {V : Type κ} where
  -- `map.keys()` and `map.values()`
  abbrev pub keys : JsMap K V → List K
  keys [] = []
  keys ((k, v) ∷ m) = k ∷ keys m

  abbrev pub values : JsMap K V → List V
  values [] = []
  values ((k, v) ∷ m) = v ∷ values m

  pub length-keys : (m : JsMap K V) → length (keys m) ≡ length m
  length-keys [] = refl
  length-keys ((k, v) ∷ m) = ap suc (length-keys m)

module _ {ℓ κ} {K : Type ℓ} {V : Type κ} ⦃e : Eq K⦄ where
  unfoldable pub get : K → JsMap K V → Option V
  get k [] = none
  get k ((j, v) ∷ m) = if j == k then some v else get k m

  abbrev pub has : K → JsMap K V → Bool
  has k m = is_some (get k m)

  unfoldable pub set : K → V → JsMap K V → JsMap K V
  set k v [] = (k, v) ∷ []
  set k v ((j, w) ∷ m) = if j == k then (j, v) ∷ m else (j, w) ∷ set k v m

  unfoldable pub delete : K → JsMap K V → JsMap K V
  delete k [] = []
  delete k ((j, w) ∷ m) = if j == k then delete k m else (j, w) ∷ delete k m

  -- `map.delete(map.keys().next().value)`
  unfoldable pub delete_first : JsMap K V → JsMap K V
  delete_first [] = []
  delete_first ((k, v) ∷ m) = delete k ((k, v) ∷ m)

  -- No key stands twice.
  abbrev pub HasDistinctKeys : JsMap K V → Type 0
  HasDistinctKeys [] = Unit
  HasDistinctKeys ((k, v) ∷ m) = (has k m ≡ false) × HasDistinctKeys m

  pub get-set :
      (k j : K) (v : V) (m : JsMap K V) → get j (set k v m) ≡ (if k == j then some v else get j m)
  unfolding get set
  get-set k j v [] = refl
  get-set k j v ((i, w) ∷ m) =
      ground (arith, e.beq_iff k j, e.beq_iff i k, e.beq_iff i j, get-set k j v m)

  pub get-set_self : (k : K) (v : V) (m : JsMap K V) → get k (set k v m) ≡ some v
  get-set_self k v m = rw (get-set k k v m) (rw (eq_refl k))

  pub get-delete :
      (k j : K) (m : JsMap K V) → get j (delete k m) ≡ (if k == j then none else get j m)
  unfolding get delete
  get-delete k j [] = ground arith
  get-delete k j ((i, w) ∷ m) =
      ground (arith, e.beq_iff k j, e.beq_iff i k, e.beq_iff i j, get-delete k j m)

  pub delete_absent : (k : K) (m : JsMap K V) → has k m ≡ false → delete k m ≡ m
  unfolding get delete
  delete_absent k [] h = refl
  delete_absent k ((i, w) ∷ m) h = ground (arith, delete_absent k m)

  pub set_absent : (k : K) (v : V) (m : JsMap K V) → has k m ≡ false → set k v m ≡ m ++ (k, v) ∷ []
  unfolding get set
  set_absent k v [] h = refl
  set_absent k v ((i, w) ∷ m) h = ground (arith, set_absent k v m)

  pub get-append_absent : (k : K) (m n : JsMap K V) → has k m ≡ false → get k (m ++ n) ≡ get k n
  unfolding get
  get-append_absent k [] n h = refl
  get-append_absent k ((i, w) ∷ m) n h = ground (arith, get-append_absent k m n)

  pub get_single : (k : K) (v : V) → get k ((k, v) ∷ []) ≡ some v
  unfolding get
  get_single k v = rw (eq_refl k)

  pub has-tail : (k i : K) (w : V) (m : JsMap K V) → has k ((i, w) ∷ m) ≡ false → has k m ≡ false
  unfolding get
  has-tail k i w m h = ground arith

  pub length-set :
      (k : K) (v : V) (m : JsMap K V)
      → length (set k v m) ≡ (if has k m then length m else suc (length m))
  unfolding get set
  length-set k v [] = refl
  length-set k v ((i, w) ∷ m) = ground (arith, length-set k v m)

  pub length-delete : (k : K) (m : JsMap K V) → length (delete k m) ≤ length m
  unfolding delete
  length-delete k [] = omega arith
  length-delete k ((i, w) ∷ m) = ground (arith, length-delete k m)

  pub has-delete_self : (k : K) (m : JsMap K V) → has k (delete k m) ≡ false
  has-delete_self k m = rw (get-delete k k m) (rw (eq_refl k))

  pub length-delete_present :
      (k : K) (m : JsMap K V) → has k m ≡ true → suc (length (delete k m)) ≤ length m
  unfolding get delete
  length-delete_present k [] h = cc
  length-delete_present k ((i, w) ∷ m) h =
      ground (arith, length-delete k m, length-delete_present k m)

  pub length-delete_first : (m : JsMap K V) → length (delete_first m) ≤ length m - 1
  unfolding delete_first delete
  length-delete_first [] = omega arith
  length-delete_first ((k, v) ∷ m) = rw (eq_refl k) (omega (arith, length-delete k m))

  pub delete_first_lem :
      (k : K) (v : V) (m : JsMap K V) → HasDistinctKeys ((k, v) ∷ m) → delete_first ((k, v) ∷ m) ≡ m
  unfolding delete_first delete
  delete_first_lem k v m h = rw (eq_refl k) (delete_absent k m h.0)

  pub set-HasDistinctKeys :
      (k : K) (v : V) (m : JsMap K V) → HasDistinctKeys m → HasDistinctKeys (set k v m)
  unfolding get set
  set-HasDistinctKeys k v [] h = (refl, tt)
  set-HasDistinctKeys k v ((i, w) ∷ m) h = elim (Bool-cases (i == k)) [
    | inl same ↦ rw same h
    | inr other ↦ rw other (
      ground (arith, get-set k i v m, e.beq_iff k i, e.beq_iff i k),
      set-HasDistinctKeys k v m h.1,
    )
  ]

  pub delete-HasDistinctKeys :
      (k : K) (m : JsMap K V) → HasDistinctKeys m → HasDistinctKeys (delete k m)
  unfolding delete
  delete-HasDistinctKeys k [] h = tt
  delete-HasDistinctKeys k ((i, w) ∷ m) h = elim (Bool-cases (i == k)) [
    | inl same ↦ rw same (delete-HasDistinctKeys k m h.1)
    | inr other ↦ rw other (ground (arith, get-delete k i m), delete-HasDistinctKeys k m h.1)
  ]

  pub delete_first-HasDistinctKeys :
      (m : JsMap K V) → HasDistinctKeys m → HasDistinctKeys (delete_first m)
  unfolding delete_first
  delete_first-HasDistinctKeys [] h = tt
  delete_first-HasDistinctKeys ((k, v) ∷ m) h = delete-HasDistinctKeys k ((k, v) ∷ m) h

  has-contains-keys : (k : K) (m : JsMap K V) → has k m ≡ contains (keys m) k
  unfolding get contains
  has-contains-keys k [] = refl
  has-contains-keys k ((j, w) ∷ m) = ground (arith, has-contains-keys k m)

  pub HasDistinctKeys-iff : (m : JsMap K V) → HasDistinctKeys m ↔ IsDistinct (keys m)
  HasDistinctKeys-iff [] = (λ h. tt, λ h. tt)
  HasDistinctKeys-iff ((k, v) ∷ m) = (
    λ h. (sym (has-contains-keys k m) ∙ h.0, (HasDistinctKeys-iff m).0 h.1),
    λ h. (has-contains-keys k m ∙ h.0, (HasDistinctKeys-iff m).1 h.1),
  )

  -- Whether keys are distinct, and how many entries there are, shows in the keys alone.
  pub HasDistinctKeys-of_keys :
      (m n : JsMap K V) → keys n ≡ keys m → HasDistinctKeys m → HasDistinctKeys n
  HasDistinctKeys-of_keys m n p h = (HasDistinctKeys-iff n).1 (rw p ((HasDistinctKeys-iff m).0 h))

  pub length-set-le : (k : K) (v : V) (m : JsMap K V) → length (set k v m) ≤ suc (length m)
  length-set-le k v m = ground (arith, length-set k v m)

  pub length_of_keys : (m n : JsMap K V) → keys n ≡ keys m → length n ≡ length m
  length_of_keys m n p = sym (length-keys n) ∙ ap length p ∙ length-keys m

  -- Deletes a key, writes it again at the end, and drops the first entry of a map over its limit.
  unfoldable pub put_last : ℕ → K → V → JsMap K V → JsMap K V
  put_last limit k v m =
      let written = set k v (delete k m) in
      if ltb limit (length written) then delete_first written else written

  get-bounded_append :
      (limit : ℕ) (k : K) (v : V) (m : JsMap K V)
      → 0 < limit
      → has k m ≡ false
      → HasDistinctKeys (m ++ (k, v) ∷ [])
      → get k (
          if ltb limit (length (m ++ (k, v) ∷ []))
          then delete_first (m ++ (k, v) ∷ [])
          else m ++ (k, v) ∷ [])
        ≡ some v
  get-bounded_append limit k v [] pos absent d = rw (lt→ltb_false pos) (get_single k v)
    where
      lt→ltb_false : 0 < limit → ltb limit 1 ≡ false
      lt→ltb_false h = ground arith
  get-bounded_append limit k v ((i, w) ∷ m) pos absent d =
      elim (Bool-cases (ltb limit (length ((i, w) ∷ m ++ (k, v) ∷ [])))) [
        | inl full ↦
            rw (full, delete_first_lem i w (m ++ (k, v) ∷ []) d)
              (get-append_absent k m _ (has-tail k i w m absent) ∙ get_single k v)
        | inr room ↦ rw room (get-append_absent k ((i, w) ∷ m) _ absent ∙ get_single k v)
      ]

  pub get-put_last :
      (limit : ℕ) (k : K) (v : V) (m : JsMap K V)
      → 0 < limit
      → HasDistinctKeys m
      → get k (put_last limit k v m) ≡ some v
  unfolding put_last
  get-put_last limit k v m pos d = rw (set_absent k v (delete k m) (has-delete_self k m)) (
      get-bounded_append limit k v (delete k m) pos (has-delete_self k m) (
        subst (λ n. HasDistinctKeys n) (set_absent k v (delete k m) (has-delete_self k m))
          (set-HasDistinctKeys k v (delete k m) (delete-HasDistinctKeys k m d))))

  pub put_last-HasDistinctKeys :
      (limit : ℕ) (k : K) (v : V) (m : JsMap K V)
      → HasDistinctKeys m
      → HasDistinctKeys (put_last limit k v m)
  unfolding put_last
  put_last-HasDistinctKeys limit k v m d =
      let w = set-HasDistinctKeys k v (delete k m) (delete-HasDistinctKeys k m d) in
      elim (Bool-cases (ltb limit (length (set k v (delete k m))))) [
        | inl full ↦ rw full (delete_first-HasDistinctKeys (set k v (delete k m)) w)
        | inr room ↦ rw room w
      ]

  pub length-put_last :
      (limit : ℕ) (k : K) (v : V) (m : JsMap K V)
      → length m ≤ limit
      → length (put_last limit k v m) ≤ limit
  unfolding put_last
  length-put_last limit k v m h = ground (
    arith,
    length-set-le k v (delete k m),
    length-delete k m,
    length-delete_first (set k v (delete k m)),
  )

module _ {ℓ κ μ} {K : Type ℓ} {V : Type κ} ⦃e : Eq K⦄ (P : V → Type μ) where
  -- A property of the stored values.
  abbrev pub AllValues : JsMap K V → Type μ
  AllValues m = All P (values m)

  pub set-AllValues :
      (k : K) (v : V) (m : JsMap K V) → P v → All P (values m) → All P (values (set k v m))
  unfolding set
  set-AllValues k v [] p h = (p, tt)
  set-AllValues k v ((i, w) ∷ m) p h = elim (Bool-cases (i == k)) [
    | inl same ↦ rw same (p, h.1)
    | inr other ↦ rw other (h.0, set-AllValues k v m p h.1)
  ]

  pub delete-AllValues : (k : K) (m : JsMap K V) → All P (values m) → All P (values (delete k m))
  unfolding delete
  delete-AllValues k [] h = tt
  delete-AllValues k ((i, w) ∷ m) h = elim (Bool-cases (i == k)) [
    | inl same ↦ rw same (delete-AllValues k m h.1)
    | inr other ↦ rw other (h.0, delete-AllValues k m h.1)
  ]

  pub delete_first-AllValues : (m : JsMap K V) → All P (values m) → All P (values (delete_first m))
  unfolding delete_first
  delete_first-AllValues [] h = tt
  delete_first-AllValues ((k, v) ∷ m) h = delete-AllValues k ((k, v) ∷ m) h

  pub get-AllValues : (k : K) (m : JsMap K V) (v : V) → All P (values m) → get k m ≡ some v → P v
  unfolding get
  get-AllValues k [] v h q = absurd (cc)
  get-AllValues k ((i, w) ∷ m) v h q = elim (Bool-cases (i == k)) [
    | inl same ↦ let p : w ≡ v = ground arith in rw (← p) h.0
    | inr other ↦ get-AllValues k m v h.1 (ground arith)
  ]

  -- What holds of all that is found holds of all values, if no key stands twice.
  pub AllValues_of_get :
      (m : JsMap K V) → HasDistinctKeys m → ((k : K) (v : V) → get k m ≡ some v → P v) → AllValues m
  unfolding get
  AllValues_of_get [] d h = tt
  AllValues_of_get ((i, w) ∷ m) d h = (
    h i w (rw (eq_refl i) refl),
    AllValues_of_get m d.1 (λ k v found. elim (Bool-cases (i == k)) [
      | inl same ↦
          let equal = (e.beq_iff i k).0 same in
          let absent : has k m ≡ false = rw (← equal) d.0 in absurd (ground (arith, found, absent))
      | inr other ↦ h k v (rw other found)
    ]),
  )
