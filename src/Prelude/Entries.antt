-- ===== src/Prelude/Entries.antt =====
-- Properties of all members of a list and of all entries of a map.
use mathlib.Core.Path.{◌≡◌, subst}
use mathlib.Core.Logic.{◌⊎◌, inl, inr}
use mathlib.Core.Option.{some}
use mathlib.Core.List.{List, [], ◌∷◌}
use native.Mathlib.Omega.{arith}
use chubby.Prelude.Tests.{Bool-cases}
use chubby.Prelude.Map.{Eq, Map, ◌==◌, lookup, insert}

abbrev pub All {ℓ κ} : {A : Type ℓ} → (A → Type κ) → List A → Type κ
All P [] = Unit
All P (x ∷ xs) = P x × All P xs

abbrev pub Among : {A : Type 0} → A → List A → Type 0
Among a [] = ⊥
Among a (x ∷ xs) = (x ≡ a) ⊎ Among a xs

pub All-Among {κ} :
    {A : Type 0} (P : A → Type κ) (a : A) (xs : List A) → All P xs → Among a xs → P a
All-Among P a [] all among = absurd among
All-Among P a (x ∷ xs) all (inl e) = subst P e all.0
All-Among P a (x ∷ xs) all (inr among) = All-Among P a xs all.1 among

module _ {ℓ κ μ} {K : Type ℓ} {V : Type κ} (P : K → V → Type μ) where
  abbrev pub Entries : Map K V → Type μ
  Entries [] = Unit
  Entries ((key, value) ∷ rest) = P key value × Entries rest

  pub Entries-insert :
      ⦃e : Eq K⦄ (key : K) (new : V) (m : Map K V)
      → P key new
      → Entries m
      → Entries (insert key new m)
  unfolding insert
  Entries-insert ⦃e⦄ key new [] here all = (here, tt)
  Entries-insert ⦃e⦄ key new ((entry, old) ∷ rest) here all = elim (Bool-cases (entry == key)) [
    | inl hit ↦ rw hit (here, all.1)
    | inr miss ↦ rw miss (all.0, Entries-insert key new rest here all.1)
  ]

  pub Entries-lookup :
      ⦃e : Eq K⦄ (key : K) (found : V) (m : Map K V)
      → Entries m
      → lookup key m ≡ some found
      → P key found
  unfolding lookup
  Entries-lookup ⦃e⦄ key found [] all at = absurd (ground arith)
  Entries-lookup ⦃e⦄ key found ((entry, old) ∷ rest) all at = elim (Bool-cases (entry == key)) [
    | inl hit ↦
        subst (λ k. P k found) ((e.same_iff entry key).0 hit) (subst (P entry) (ground arith) all.0)
    | inr miss ↦ Entries-lookup key found rest all.1 (ground arith)
  ]

pub Entries-map {ℓ κ μ ν} :
    {K : Type ℓ} {V : Type κ} (P : K → V → Type μ) (Q : K → V → Type ν)
    → ((key : K) (value : V) → P key value → Q key value)
    → (m : Map K V) → Entries P m
    → Entries Q m
Entries-map P Q f [] all = tt
Entries-map P Q f ((key, value) ∷ rest) all = (f key value all.0, Entries-map P Q f rest all.1)
