-- ===== src/Prelude/Growing.antt =====
-- Maps of which no entry is lost, and each is replaced by what may follow it.
use mathlib.Core.Path.{◌≡◌, sym, ◌∙◌, subst}
use mathlib.Core.Logic.{inl, inr}
use mathlib.Core.Option.{some}
use chubby.Prelude.Tests.{Bool-cases}
use chubby.Prelude.Map.{Eq, Map, ◌==◌, lookup, insert, lookup-insert}

module _ {ℓ κ μ} {K : Type ℓ} {V : Type κ} ⦃e : Eq K⦄ (G : V → V → Type μ) where
  abbrev pub Grows : Map K V → Map K V → Type (ℓ ⊔ κ ⊔ μ)
  Grows m m' =
      (key : K) (old : V)
      → lookup key m ≡ some old
      → (new : V) × ((lookup key m' ≡ some new) × G old new)

  pub Grows-refl : ((v : V) → G v v) → (m : Map K V) → Grows m m
  Grows-refl same m key old at = (old, (at, same old))

  pub Grows-trans :
      ((a b c : V) → G a b → G b c → G a c)
      → (m m' m'' : Map K V) → Grows m m'
      → Grows m' m''
      → Grows m m''
  Grows-trans trans m m' m'' first second key old at =
      let (mid, (found, grown)) = first key old at in
      let (new, (found', grown')) = second key mid found in
      (new, (found', trans old mid new grown grown'))

  -- A write that replaces what it finds, if anything, by what may follow it.
  pub Grows-insert :
      ((v : V) → G v v)
      → (k : K) (written : V) (m : Map K V) → ((old : V) → lookup k m ≡ some old → G old written)
      → Grows m (insert k written m)
  Grows-insert same k written m follows key old at = elim (Bool-cases (k == key)) [
    | inl hit ↦ (
      written,
      (
        lookup-insert k key written m ∙ rw hit,
        follows old (subst (λ j. lookup j m ≡ some old) (sym ((e.same_iff k key).0 hit)) at),
      ),
    )
    | inr miss ↦ (old, (lookup-insert k key written m ∙ rw miss at, same old))
  ]
