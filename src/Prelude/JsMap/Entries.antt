-- ===== src/Prelude/JsMap/Entries.antt =====
-- What holds of the entries of a map, keys and values together.
use mathlib.Core.Path.{◌≡◌, refl, subst}
use mathlib.Core.Logic.{inl, inr}
use mathlib.Core.Bool.{true}
use mathlib.Core.Option.{some}
use mathlib.Core.List.{[], ◌∷◌}
use native.Mathlib.Omega.{arith}
use remoteterm_meshcore.Prelude.Tests.{Bool-cases}
use remoteterm_meshcore.Prelude.Lists.{All}
use remoteterm_meshcore.Prelude.Equality.{Eq, ◌==◌, eq_iff, eq_refl}
use remoteterm_meshcore.Prelude.JsMap.{JsMap, get, has, set, get-set}

module _ {ℓ κ μ} {K : Type ℓ} {V : Type κ} ⦃e : Eq K⦄ (P : K × V → Type μ) where
  pub set-All : (k : K) (v : V) (m : JsMap K V) → P (k, v) → All P m → All P (set k v m)
  unfolding set
  set-All k v [] p h = (p, tt)
  set-All k v ((j, w) ∷ m) p h = elim (Bool-cases (j == k)) [
    | inl same ↦ rw same (rw ((eq_iff j k).0 same) p, h.1)
    | inr other ↦ rw other (h.0, set-All k v m p h.1)
  ]

  pub get-All : (k : K) (v : V) (m : JsMap K V) → All P m → get k m ≡ some v → P (k, v)
  unfolding get
  get-All k v [] h q = absurd (cc)
  get-All k v ((j, w) ∷ m) h q = elim (Bool-cases (j == k)) [
    | inl same ↦
        let p : w ≡ v = ground arith in
        subst (λ i. P (i, v)) ((eq_iff j k).0 same) (subst (λ u. P (j, u)) p h.0)
    | inr other ↦ get-All k v m h.1 (ground arith)
  ]

module _ {ℓ κ} {K : Type ℓ} {V : Type κ} ⦃e : Eq K⦄ where
  pub has-set_self : (k : K) (v : V) (m : JsMap K V) → has k (set k v m) ≡ true
  has-set_self k v m = rw (get-set k k v m, eq_refl k) refl

  pub has-set_other : (k j : K) (v : V) (m : JsMap K V) → has j m ≡ true → has j (set k v m) ≡ true
  has-set_other k j v m h = ground (arith, get-set k j v m)
