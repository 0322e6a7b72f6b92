-- ===== src/Prelude/Dict.antt =====
-- Go's maps with text keys, as association lists in insertion order.
use Prim.Native.String.{String}
use mathlib.Core.Bool.{true, false}
use mathlib.Core.Path.{◌≡◌, refl, ap, subst, ◌∙◌}
use mathlib.Core.Option.{Option, none, some}
use mathlib.Core.List.{List, [], ◌∷◌}
use native.Mathlib.Omega.{arith}
use text.Mathlib.Text.{◌==◌}
use text.Mathlib.TextEquality.{eq_iff}
use gocrud.Prelude.Tests.{if◌then◌else◌, Bool-cases}
use mathlib.Core.Logic.{◌⊎◌, inl, inr}

abbrev pub Dict {ℓ} : Type ℓ → Type ℓ
Dict V = List (String × V)

module _ {ℓ} {V : Type ℓ} where
  -- `v, ok := m[k]`
  unfoldable pub lookup : String → Dict V → Option V
  lookup k [] = none
  lookup k ((key, v) ∷ dict) = if key == k then some v else lookup k dict

  -- `m[k] = v`
  unfoldable pub insert : String → V → Dict V → Dict V
  insert k v [] = (k, v) ∷ []
  insert k v ((key, held) ∷ dict) =
      if key == k then (k, v) ∷ dict else (key, held) ∷ insert k v dict

  -- `delete(dict, k)`
  unfoldable pub erase : String → Dict V → Dict V
  erase k [] = []
  erase k ((key, v) ∷ dict) = let rest = erase k dict in if key == k then rest else (key, v) ∷ rest

  pub lookup-insert :
      (k key : String) (v : V) (dict : Dict V)
      → lookup key (insert k v dict) ≡ (if k == key then some v else lookup key dict)
  unfolding lookup insert
  lookup-insert k key v [] = refl
  lookup-insert k key v ((place, held) ∷ dict) =
      ground (arith, eq_iff k key, eq_iff place k, eq_iff place key, lookup-insert k key v dict)

  pub lookup-insert_other :
      (k key : String) (v : V) (dict : Dict V)
      → (k == key) ≡ false
      → lookup key (insert k v dict) ≡ lookup key dict
  lookup-insert_other k key v dict other =
      lookup-insert k key v dict ∙ ap (λ b. if b then some v else lookup key dict) other

  pub lookup-insert_same :
      (k key : String) (v : V) (dict : Dict V)
      → (k == key) ≡ true
      → lookup key (insert k v dict) ≡ some v
  lookup-insert_same k key v dict same =
      lookup-insert k key v dict ∙ ap (λ b. if b then some v else lookup key dict) same

  -- No key stands twice.
  abbrev pub Distinct : Dict V → Type ℓ
  Distinct [] = Unit
  Distinct ((k, v) ∷ dict) = (lookup k dict ≡ none) × Distinct dict

  pub Distinct-insert :
      (k : String) (v : V) (dict : Dict V) → Distinct dict → Distinct (insert k v dict)
  unfolding insert lookup
  Distinct-insert k v [] d = (refl, tt)
  Distinct-insert k v ((key, held) ∷ dict) d = elim (Bool-cases (key == k)) [
    | inl same ↦ rw same (subst (λ j. lookup j dict ≡ none) ((eq_iff key k).0 same) d.0, d.1)
    | inr other ↦ rw other (
      lookup-insert_other k key v dict (ground (arith, eq_iff k key, eq_iff key k)) ∙ d.0,
      Distinct-insert k v dict d.1,
    )
  ]

  pub lookup-erase :
      (k key : String) (dict : Dict V)
      → lookup key (erase k dict) ≡ (if k == key then none else lookup key dict)
  unfolding lookup erase
  lookup-erase k key [] = ground arith
  lookup-erase k key ((place, held) ∷ dict) =
      ground (arith, eq_iff k key, eq_iff place k, eq_iff place key, lookup-erase k key dict)

  pub lookup-insert_cases :
      (k key : String) (v : V) (dict : Dict V) {held : V}
      → lookup key (insert k v dict) ≡ some held
      → (v ≡ held) ⊎ (lookup key dict ≡ some held)
  lookup-insert_cases k key v dict h = elim (Bool-cases (k == key)) [
    | inl same ↦ let g = rw (lookup-insert k key v dict, same) at h in inl cc
    | inr other ↦ inr (rw (lookup-insert k key v dict, other) at h)
  ]
