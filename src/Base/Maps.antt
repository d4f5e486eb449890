-- ===== src/Base/Maps.antt =====
-- JavaScript's `Map` with string keys, as the list of its entries in the order of insertion.
use Prim.Native.Nat.{ℕ, suc, ◌+◌, ◌≤◌}
use mathlib.Core.Path.{◌≡◌, refl}
use mathlib.Core.Logic.{inl, inr}
use mathlib.Core.List.{List, [], ◌∷◌}
use mathlib.Core.Option.{Option, none, some}
use native.Mathlib.Omega.{arith}
use magna_monorepo.Base.Tests.{if◌then◌else◌, Bool-cases}
use magna_monorepo.Base.Texts.{text_eq, text_eq_refl}

module _ {ℓ} {A : Type ℓ} where
  -- `map.get(key)`
  unfoldable pub lookup : List ℕ → List (List ℕ × A) → Option A
  lookup key [] = none
  lookup key ((k, v) ∷ entries) =
      let rest = lookup key entries in if text_eq k key then some v else rest

  -- `map.set(key, value)`: a key that is there keeps its place.
  unfoldable pub insert : List ℕ → A → List (List ℕ × A) → List (List ℕ × A)
  insert key value [] = (key, value) ∷ []
  insert key value ((k, v) ∷ entries) =
      let rest = insert key value entries in
      if text_eq k key then (k, value) ∷ entries else (k, v) ∷ rest

  -- `map.delete(key)`
  unfoldable pub remove : List ℕ → List (List ℕ × A) → List (List ℕ × A)
  remove key [] = []
  remove key ((k, v) ∷ entries) =
      let rest = remove key entries in if text_eq k key then rest else (k, v) ∷ rest

  -- How many entries have the key.
  unfoldable pub entries_of : List ℕ → List (List ℕ × A) → ℕ
  entries_of key [] = 0
  entries_of key ((k, v) ∷ entries) =
      let rest = entries_of key entries in if text_eq k key then suc rest else rest

  pub entries_of-lookup :
      (key : List ℕ) (entries : List (List ℕ × A)) {v : A}
      → lookup key entries ≡ some v
      → 1 ≤ entries_of key entries
  unfolding lookup entries_of
  entries_of-lookup key [] h = cc
  entries_of-lookup key ((k, w) ∷ entries) h = elim (Bool-cases (text_eq k key)) [
    | inl same ↦ rw same (omega arith)
    | inr other ↦ rw other (entries_of-lookup key entries (rw other at h))
  ]

  pub entries_of-remove :
      (key other : List ℕ) (entries : List (List ℕ × A))
      → entries_of key (remove other entries) ≤ entries_of key entries
  unfolding remove entries_of
  entries_of-remove key other [] = omega arith
  entries_of-remove key other ((k, w) ∷ entries) = elim (Bool-cases (text_eq k other)) [
    | inl gone ↦ rw gone (ground (arith, entries_of-remove key other entries))
    | inr kept ↦ rw kept (ground (arith, entries_of-remove key other entries))
  ]

  pub entries_of-removed :
      (key : List ℕ) (entries : List (List ℕ × A)) → entries_of key (remove key entries) ≡ 0
  unfolding remove entries_of
  entries_of-removed key [] = refl
  entries_of-removed key ((k, w) ∷ entries) = elim (Bool-cases (text_eq k key)) [
    | inl gone ↦ rw gone (entries_of-removed key entries)
    | inr kept ↦ rw kept (rw kept (entries_of-removed key entries))
  ]

  pub entries_of-insert :
      (key other : List ℕ) (value : A) (entries : List (List ℕ × A))
      → entries_of key (insert other value entries)
        ≤ entries_of key entries + (if text_eq other key then 1 else 0)
  unfolding insert entries_of
  entries_of-insert key other value [] = ground arith
  entries_of-insert key other value ((k, w) ∷ entries) = elim (Bool-cases (text_eq k other)) [
    | inl same ↦ rw same (ground arith)
    | inr differs ↦ rw differs (ground (arith, entries_of-insert key other value entries))
  ]

  pub lookup-insert :
      (key : List ℕ) (value : A) (entries : List (List ℕ × A))
      → lookup key (insert key value entries) ≡ some value
  unfolding lookup insert
  lookup-insert key value [] = rw (text_eq_refl key) refl
  lookup-insert key value ((k, v) ∷ entries) = elim (Bool-cases (text_eq k key)) [
    | inl same ↦ rw same (rw same refl)
    | inr other ↦ rw other (rw other (lookup-insert key value entries))
  ]

  pub lookup-remove :
      (key : List ℕ) (entries : List (List ℕ × A)) → lookup key (remove key entries) ≡ none
  unfolding lookup remove
  lookup-remove key [] = refl
  lookup-remove key ((k, v) ∷ entries) = elim (Bool-cases (text_eq k key)) [
    | inl same ↦ rw same (lookup-remove key entries)
    | inr other ↦ rw other (rw other (lookup-remove key entries))
  ]
