-- ===== src/Client/Setup/Stubs.antt =====
-- Which stubs a client has.
use text.Mathlib.TextEquality.{eq_iff}
use chubby.Prelude.{
  ℕ, suc, String, ◌≡◌, refl, sym, ap, ◌∙◌, inl, inr, Bool, true, false, Bool-cases, not, ◌&&◌, ◌||◌,
  some, List, [], ◌∷◌, if◌then◌else◌, arith, ltb,
}
use chubby.Prelude.Map.{Map, lookup, insert, lookup-insert, ◌==◌, string_eq}
use chubby.Client.Setup.{Channel, Session, listed, insert_cell, read_config, make_stubs}

-- Whether an address stands on a line of the file that is not empty.
unfoldable pub configured : String → List String → Bool
configured address [] = false
configured address (line ∷ rest) = not (line == "") && line == address || configured address rest

-- Whether one of the addresses in the file, or in the set, gives a channel that is usable.
unfoldable pub connects : (String → Channel) → List String → Bool
connects dial [] = false
connects dial (line ∷ rest) = not (line == "") && (dial line).usable || connects dial rest

unfoldable pub some_usable : (String → Channel) → List String → Bool
some_usable dial [] = false
some_usable dial (cell ∷ rest) = (dial cell).usable || some_usable dial rest

listed-insert_cell :
    (a b : String) (cells : List String)
    → listed a (insert_cell b cells) ≡ (b == a || listed a cells)
unfolding listed insert_cell
listed-insert_cell a b cells = elim (Bool-cases (listed b cells)) [
  | inl there ↦ ground (arith, there, eq_iff b a)
  | inr fresh ↦ rw fresh refl
]

module _ (dial : String → Channel) where
  pub make_stubs-count :
      (cells : List String) (count : ℕ) (stubs : Map String Bool)
      → ltb 0 (make_stubs dial cells count stubs).0 ≡ (some_usable dial cells || ltb 0 count)
  unfolding make_stubs some_usable
  make_stubs-count [] count stubs = refl
  make_stubs-count (cell ∷ rest) count stubs =
      let more =
        make_stubs-count rest (if (dial cell).usable then suc count else count)
          (insert cell (dial cell).stub stubs) in
      more ∙ ground arith

  pub make_stubs-lookup :
      (a : String) (cells : List String) (count : ℕ) (stubs : Map String Bool)
      → lookup a (make_stubs dial cells count stubs).1
        ≡ (if listed a cells then some (dial a).stub else lookup a stubs)
  unfolding make_stubs listed
  make_stubs-lookup a [] count stubs = refl
  make_stubs-lookup a (cell ∷ rest) count stubs =
      make_stubs-lookup a rest (if (dial cell).usable then suc count else count)
        (insert cell (dial cell).stub stubs)
      ∙ rw (lookup-insert cell a (dial cell).stub stubs) (ground (arith, eq_iff cell a))

module _ (dial : String → Channel) where
  listed-usable :
      (b : String) (cells : List String)
      → listed b cells ≡ true
      → some_usable dial cells ≡ ((dial b).usable || some_usable dial cells)
  unfolding listed some_usable
  listed-usable b [] e = cc
  listed-usable b (cell ∷ rest) e = elim (Bool-cases (cell == b)) [
    | inl hit ↦ let same = ap (λ a. (dial a).usable) ((eq_iff cell b).0 hit) in ground (arith, same)
    | inr miss ↦ let more = listed-usable b rest (sym (rw miss refl) ∙ e) in ground (arith, more)
  ]

  usable-insert_cell :
      (b : String) (cells : List String)
      → some_usable dial (insert_cell b cells) ≡ ((dial b).usable || some_usable dial cells)
  unfolding insert_cell some_usable
  usable-insert_cell b cells = elim (Bool-cases (listed b cells)) [
    | inl there ↦ rw there (listed-usable b cells there)
    | inr fresh ↦ rw fresh refl
  ]

  pub read_config-usable :
      (lines : List String) (s : Session)
      → some_usable dial (read_config lines s).chubby_cells
        ≡ (connects dial lines || some_usable dial s.chubby_cells)
  unfolding read_config connects
  read_config-usable [] s = refl
  read_config-usable (line ∷ rest) s = elim (Bool-cases (line == "")) [
    | inl blank ↦ rw blank (read_config-usable rest s)
    | inr text ↦
        rw text
          (read_config-usable rest _ ∙ rw (usable-insert_cell line s.chubby_cells) (ground arith))
  ]

pub read_config-listed :
    (a : String) (lines : List String) (s : Session)
    → listed a (read_config lines s).chubby_cells ≡ (configured a lines || listed a s.chubby_cells)
unfolding read_config configured
read_config-listed a [] s = refl
read_config-listed a (line ∷ rest) s = elim (Bool-cases (line == "")) [
  | inl blank ↦ rw blank (read_config-listed a rest s)
  | inr text ↦
      rw text
        (read_config-listed a rest _ ∙ rw (listed-insert_cell a line s.chubby_cells) (ground arith))
]

pub read_config-lookup :
    (a : String) (lines : List String) (s : Session)
    → lookup a (read_config lines s).chubby_map
      ≡ (if configured a lines then some false else lookup a s.chubby_map)
unfolding read_config configured
read_config-lookup a [] s = refl
read_config-lookup a (line ∷ rest) s = elim (Bool-cases (line == "")) [
  | inl blank ↦ rw blank (read_config-lookup a rest s)
  | inr text ↦
      rw text
        (read_config-lookup a rest _ ∙ rw (lookup-insert line a false s.chubby_map) (ground arith))
]

pub read_config-library :
    (lines : List String) (s : Session) → (read_config lines s).library ≡ s.library
unfolding read_config
read_config-library [] s = refl
read_config-library (line ∷ rest) s = elim (Bool-cases (line == "")) [
  | inl blank ↦ rw blank (read_config-library rest s)
  | inr text ↦ rw text (read_config-library rest _)
]
