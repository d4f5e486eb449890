-- ===== src/Webauthn/Witness/Origin.antt =====
-- Where `findOriginIndex` finds the origin: at the only place where the needle stands.
use magna_monorepo.Base.{
  ℕ, zero, suc, ◌+◌, ◌-◌, ◌≤◌, ◌<◌, ◌≡◌, ◌≢◌, sym, ◌↔◌, subst, true, List, none, some, ok, length,
  drop, arith, Bool-cases, inl, inr, length-drop, Option-cases, ltb, ◌∷◌, [],
}
use magna_monorepo.Webauthn.Witness.{
  matches_at, index_loop, index_of_bytes, origin_needle, find_origin_index,
}

-- The needle stands at `i` of the haystack.
abbrev pub OccursAt : List ℕ → List ℕ → ℕ → Type 0
OccursAt haystack needle i = matches_at (drop i haystack) needle ≡ true

matches_at-le :
    (haystack needle : List ℕ) → matches_at haystack needle ≡ true → length needle ≤ length haystack
matches_at-le haystack [] e = omega arith
matches_at-le [] (n ∷ needle) e = absurd (unfold matches_at in cc)
matches_at-le (h ∷ haystack) (n ∷ needle) e =
    let rest = matches_at-le haystack needle (unfold matches_at in ground arith) in omega arith

index_loop-some :
    (rounds : ℕ) (haystack needle : List ℕ) (from i : ℕ)
    → index_loop rounds haystack needle from ≡ some i
    → (from ≤ i) × OccursAt haystack needle i
index_loop-some zero haystack needle from i e = absurd (unfold index_loop in ground arith)
index_loop-some (suc rounds) haystack needle from i e =
    elim (Bool-cases (matches_at (drop from haystack) needle)) [
      | inl here ↦
          let same : from ≡ i = unfold index_loop in ground arith in
          (omega arith, subst (λ k. OccursAt haystack needle k) same here)
      | inr away ↦
          let later : index_loop rounds haystack needle (from + 1) ≡ some i =
            unfold index_loop in ground arith in
          let (a, at_i) = index_loop-some rounds haystack needle (from + 1) i later in
          (omega arith, at_i)
    ]

-- A loop that finds nothing from `from` passes over every place.
index_loop_none :
    (rounds : ℕ) (haystack needle : List ℕ) (from j : ℕ)
    → index_loop rounds haystack needle from ≡ none
    → OccursAt haystack needle j
    → from ≤ j
    → from + rounds ≤ j
index_loop_none zero haystack needle from j e at_j a = omega arith
index_loop_none (suc rounds) haystack needle from j e at_j a =
    elim (Bool-cases (matches_at (drop from haystack) needle)) [
      | inl here ↦ absurd (unfold index_loop in ground arith)
      | inr away ↦
          let later : index_loop rounds haystack needle (from + 1) ≡ none =
            unfold index_loop in ground arith in
          let apart : from ≢ j = λ e. absurd (cc) in
          let rest = index_loop_none rounds haystack needle (from + 1) j later at_j (omega arith) in
          omega arith
    ]

-- The first place found is before any other.
index_loop_first :
    (rounds : ℕ) (haystack needle : List ℕ) (from i j : ℕ)
    → index_loop rounds haystack needle from ≡ some i
    → OccursAt haystack needle j
    → from ≤ j
    → i ≤ j
index_loop_first zero haystack needle from i j e at_j a = absurd (unfold index_loop in ground arith)
index_loop_first (suc rounds) haystack needle from i j e at_j a =
    elim (Bool-cases (matches_at (drop from haystack) needle)) [
      | inl here ↦ let same : from ≡ i = unfold index_loop in ground arith in omega arith
      | inr away ↦
          let later : index_loop rounds haystack needle (from + 1) ≡ some i =
            unfold index_loop in ground arith in
          let apart : from ≢ j = λ e. absurd (cc) in
          index_loop_first rounds haystack needle (from + 1) i j later at_j (omega arith)
    ]

index_of_bytes_none :
    (haystack needle : List ℕ) (from j : ℕ)
    → 0 < length needle
    → index_of_bytes haystack needle from ≡ none
    → OccursAt haystack needle j
    → j < from
index_of_bytes_none haystack needle from j filled e at_j = elim (Bool-cases (ltb j from)) [
  | inl before ↦ (ground arith)
  | inr late ↦
      let after : from ≤ j = ground arith in
      let room = matches_at-le (drop j haystack) needle at_j in
      let rounds : ℕ = length haystack + 1 - length needle - from in
      let past =
        index_loop_none rounds haystack needle from j (unfold index_of_bytes in e) at_j after in
      omega (arith, length-drop j haystack)
]

index_of_bytes-some :
    (haystack needle : List ℕ) (from i : ℕ)
    → index_of_bytes haystack needle from ≡ some i
    → OccursAt haystack needle i × ((j : ℕ) → OccursAt haystack needle j → from ≤ j → i ≤ j)
unfolding index_of_bytes
index_of_bytes-some haystack needle from i e =
    let rounds : ℕ = length haystack + 1 - length needle - from in
    (
      (index_loop-some rounds haystack needle from i e).1,
      λ j at_j a. index_loop_first rounds haystack needle from i j e at_j a,
    )

-- A successful search found a first place, and none after it.
find_origin_index_sound :
    (json : List ℕ) (i : ℕ)
    → find_origin_index json ≡ ok i
    → (index_of_bytes json origin_needle 0 ≡ some i)
      × (index_of_bytes json origin_needle (i + 1) ≡ none)
find_origin_index_sound json i e = elim (Option-cases (index_of_bytes json origin_needle 0)) [
  | inl nowhere ↦ absurd (unfold find_origin_index in ground arith)
  | inr (first, found) ↦ elim (Option-cases (index_of_bytes json origin_needle (first + 1))) [
    | inl once ↦
        let same : first ≡ i = unfold find_origin_index in ground arith in
        (rw (sym same) found, rw (sym same) once)
    | inr (again, twice) ↦ absurd (unfold find_origin_index in ground arith)
  ]
]

-- When `findOriginIndex` returns `i`, the needle stands at `i` of the client data and nowhere else.
pub find_origin_index-only :
    (json : List ℕ) (i j : ℕ)
    → find_origin_index json ≡ ok i
    → OccursAt json origin_needle j ↔ (j ≡ i)
find_origin_index-only json i j e =
    let (first, once) = find_origin_index_sound json i e in
    let (at_i, least) = index_of_bytes-some json origin_needle 0 i first in
    (
      λ at_j.
          let below = least j at_j (omega arith) in
          let above = index_of_bytes_none json origin_needle (i + 1) j (omega arith) once at_j in
          omega arith,
      λ same. subst (λ k. OccursAt json origin_needle k) (sym same) at_i,
    )
