-- ===== src/Prelude/Map.antt =====
-- `std::map` and `std::unordered_map`: association lists over a type of keys with an equality test.
-- The results of the program's loops over a map do not depend on the order of its entries.
use Prim.Native.Nat.{ℕ}
use Prim.Native.String.{String}
use mathlib.Core.Path.{◌≡◌, refl}
use mathlib.Core.Logic.{◌↔◌, inl, inr}
use mathlib.Core.Bool.{Bool, true}
use mathlib.Core.Option.{Option, none, some}
use mathlib.Core.List.{List, [], ◌∷◌}
use native.Mathlib.Omega.{arith}
use text.Mathlib.Text.{◌==◌ as str_eq}
use text.Mathlib.TextEquality.{eq_iff}
use chubby.Prelude.Tests.{if◌then◌else◌, Bool-cases, nat_beq, nat_beq_iff}
use chubby.Prelude.Int.{ℤ, int_beq, int_beq_iff}

pub record Eq {ℓ} (A : Type ℓ) : Type ℓ where
  pub same : A → A → Bool
  pub same_iff : (a b : A) → (same a b ≡ true) ↔ (a ≡ b)

instance abbrev pub int_eq : Eq ℤ
int_eq = record { same = int_beq; same_iff = int_beq_iff }

instance abbrev pub string_eq : Eq String
string_eq = record { same = str_eq; same_iff = eq_iff }

instance abbrev pub nat_eq : Eq ℕ
nat_eq = record { same = nat_beq; same_iff = nat_beq_iff }

infix 50 ◌==◌
abbrev pub ◌==◌ {ℓ} : {A : Type ℓ} ⦃e : Eq A⦄ → A → A → Bool
◌==◌ ⦃e⦄ = e.same

pub beq_refl {ℓ} : {K : Type ℓ} ⦃e : Eq K⦄ (k : K) → (k == k) ≡ true
beq_refl ⦃e⦄ k = (e.same_iff k k).1 refl

abbrev pub Map {ℓ κ} : Type ℓ → Type κ → Type (ℓ ⊔ κ)
Map K V = List (K × V)

module _ {ℓ κ} {K : Type ℓ} {V : Type κ} ⦃e : Eq K⦄ where
  -- `m.find(k)`
  unfoldable pub lookup : K → Map K V → Option V
  lookup key [] = none
  lookup key ((entry, found) ∷ others) = if entry == key then some found else lookup key others

  -- `m[k] = v`
  unfoldable pub insert : K → V → Map K V → Map K V
  insert key new [] = (key, new) ∷ []
  insert key new ((entry, old) ∷ others) =
      if entry == key then (key, new) ∷ others else (entry, old) ∷ insert key new others

  -- `m.erase(k)`
  unfoldable pub erase : K → Map K V → Map K V
  erase k [] = []
  erase k ((j, w) ∷ m) = let rest = erase k m in if j == k then rest else (j, w) ∷ rest

  -- The entries whose key passes a test; the loops that erase from a map while they walk it.
  unfoldable pub keep : (K → Bool) → Map K V → Map K V
  keep p [] = []
  keep p ((j, w) ∷ m) = let rest = keep p m in if p j then (j, w) ∷ rest else rest

  -- A read after a write: of the key that was written, or of another.
  pub lookup-insert :
      (key read : K) (new : V) (m : Map K V)
      → lookup read (insert key new m) ≡ (if key == read then some new else lookup read m)
  unfolding insert lookup
  lookup-insert key read new [] = refl
  lookup-insert key read new ((entry, old) ∷ others) =
      let rest = lookup-insert key read new others in
      ground (arith, rest, e.same_iff entry key, e.same_iff key read, e.same_iff entry read)

  -- A second write of the key replaces the first.
  pub insert_twice :
      (key : K) (first second : V) (m : Map K V)
      → insert key second (insert key first m) ≡ insert key second m
  unfolding insert
  insert_twice key first second [] = rw (beq_refl key)
  insert_twice key first second ((entry, old) ∷ others) = elim (Bool-cases (entry == key)) [
    | inl hit ↦ ground (arith, beq_refl key)
    | inr miss ↦ ground (arith, insert_twice key first second others)
  ]

  pub lookup-erase :
      (k j : K) (m : Map K V) → lookup j (erase k m) ≡ (if k == j then none else lookup j m)
  unfolding lookup erase
  lookup-erase k j [] = ground arith
  lookup-erase k j ((i, w) ∷ m) =
      ground (arith, e.same_iff k j, e.same_iff i k, e.same_iff i j, lookup-erase k j m)

  pub lookup-keep :
      (p : K → Bool) (j : K) (m : Map K V)
      → lookup j (keep p m) ≡ (if p j then lookup j m else none)
  unfolding lookup keep
  lookup-keep p j [] = ground arith
  lookup-keep p j ((i, w) ∷ m) = elim (Bool-cases (i == j)) [
    | inl hit ↦ ground (arith, e.same_iff i j, lookup-keep p j m)
    | inr miss ↦ ground (arith, e.same_iff i j, lookup-keep p j m)
  ]
