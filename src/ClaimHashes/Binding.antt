-- ===== src/ClaimHashes/Binding.antt =====
-- What the hash of committed claims binds.
use magna_monorepo.Base.{
  ℕ, ◌≡◌, ◌≢◌, refl, sym, ap, ◌∙◌, subst, false, List, [], ◌∷◌, ok, >>=-eq-ok, ok_injective,
  Bool-cases, ◌⊎◌, inl, inr,
}
use magna_monorepo.Base.Numbers.{ℤ, pos, int_eq, eq_of_int_eq, int_eq_refl}
use magna_monorepo.Core.Values.{Number, integer, not_integer}
use magna_monorepo.ClaimHashes.{
  to_bigint, PassportCommittedClaimsWitness, nationality_commitment_ds, expiry_commitment_ds,
  claims_ds, compute_passport_committed_claims_hash,
  compute_passport_committed_claims_hash_from_witness,
}

int-cases : (a b : ℤ) → (a ≡ b) ⊎ (a ≢ b)
int-cases a b = elim (Bool-cases (int_eq a b)) [
  | inl same ↦ inl (eq_of_int_eq a b same)
  | inr other ↦ inr (λ e.
      let wrong : int_eq b b ≡ false = subst (λ (x : ℤ). int_eq x b ≡ false) e other in
      let right = int_eq_refl b in cc)
]

ints-cases : (xs ys : List ℤ) → (xs ≡ ys) ⊎ (xs ≢ ys)
ints-cases [] [] = inl refl
ints-cases [] (y ∷ ys) = inr (λ e. cc)
ints-cases (x ∷ xs) [] = inr (λ e. cc)
ints-cases (x ∷ xs) (y ∷ ys) = elim (int-cases x y) [
  | inr other ↦ inr (λ e. let same : x ≡ y = cc in other same)
  | inl same ↦ elim (ints-cases xs ys) [
    | inl all_same ↦ inl cc
    | inr differ ↦ inr (λ e. let tails : xs ≡ ys = cc in differ tails)
  ]
]

to_bigint_sound : (n : Number) (a : ℤ) → to_bigint n ≡ ok a → n ≡ integer a
to_bigint_sound (integer b) a h = ap integer (ok_injective h)
to_bigint_sound not_integer a h = cc

witness_eq :
    (v w : PassportCommittedClaimsWitness)
    → v.min_age_proven ≡ w.min_age_proven
    → v.nationality_alpha3_packed ≡ w.nationality_alpha3_packed
    → v.nationality_blind ≡ w.nationality_blind
    → v.expiry_ts ≡ w.expiry_ts
    → v.expiry_blind ≡ w.expiry_blind
    → v ≡ w
witness_eq v w e₁ e₂ e₃ e₄ e₅ = λ i. record {
  min_age_proven = e₁ i;
  nationality_alpha3_packed = e₂ i;
  nationality_blind = e₃ i;
  expiry_ts = e₄ i;
  expiry_blind = e₅ i;
}

module _ (hasher : ℕ → List ℤ → ℕ) where
  -- Two rows of values that the hasher does not tell apart.
  pub record Collision : Type 0 where
    pub separator : ℕ
    pub first : List ℤ
    pub second : List ℤ
    pub differ : first ≢ second
    pub collide : hasher separator first ≡ hasher separator second

  binds : (ds : ℕ) (xs ys : List ℤ) → hasher ds xs ≡ hasher ds ys → (xs ≡ ys) ⊎ Collision
  binds ds xs ys h = elim (ints-cases xs ys) [
    | inl same ↦ inl same
    | inr differ ↦
        inr (record { separator = ds; first = xs; second = ys; differ = differ; collide = h })
  ]

  -- The values that are hashed for a witness whose age is this integer.
  abbrev committed_values : PassportCommittedClaimsWitness → ℤ → List ℤ
  committed_values w age =
      pos 2
      ∷ pos 1
      ∷ pos (
          hasher nationality_commitment_ds (w.nationality_alpha3_packed ∷ w.nationality_blind ∷ []))
      ∷ age
      ∷ pos (hasher expiry_commitment_ds (w.expiry_ts ∷ w.expiry_blind ∷ []))
      ∷ []

  committed_hash :
      (w : PassportCommittedClaimsWitness) (n : ℕ)
      → compute_passport_committed_claims_hash_from_witness hasher w ≡ ok n
      → (age : ℤ) × (w.min_age_proven ≡ integer age)
        × (hasher claims_ds (committed_values w age) ≡ n)
  unfolding compute_passport_committed_claims_hash_from_witness
      compute_passport_committed_claims_hash
  committed_hash w n h =
      let (age, is, k) = >>=-eq-ok (to_bigint w.min_age_proven) _ h in
      (age, to_bigint_sound w.min_age_proven age is, ok_injective k)

  same_commitments :
      (v w : PassportCommittedClaimsWitness) (a b : ℤ)
      → committed_values v a ≡ committed_values w b
      → (hasher nationality_commitment_ds (v.nationality_alpha3_packed ∷ v.nationality_blind ∷ [])
          ≡ hasher nationality_commitment_ds
              (w.nationality_alpha3_packed ∷ w.nationality_blind ∷ []))
        × (a ≡ b)
        × (hasher expiry_commitment_ds (v.expiry_ts ∷ v.expiry_blind ∷ [])
            ≡ hasher expiry_commitment_ds (w.expiry_ts ∷ w.expiry_blind ∷ []))
  same_commitments v w a b h = (cc, cc, cc)

  pair_injective : (x y u v : ℤ) → ◌≡◌ {A = List ℤ} (x ∷ y ∷ []) (u ∷ v ∷ []) → (x ≡ u) × (y ≡ v)
  pair_injective x y u v h = (cc, cc)

  -- Two witnesses whose committed claims hash to the same value are the same witness, with the same age,
  -- nationality, expiry and blinds, or else the hasher has a collision, which is given.
  pub compute_passport_committed_claims_hash_from_witness-binds :
      (v w : PassportCommittedClaimsWitness) (n : ℕ)
      → compute_passport_committed_claims_hash_from_witness hasher v ≡ ok n
      → compute_passport_committed_claims_hash_from_witness hasher w ≡ ok n
      → (v ≡ w) ⊎ Collision
  compute_passport_committed_claims_hash_from_witness-binds v w n h k =
      let (a, v_age, v_hash) = committed_hash v n h in
      let (b, w_age, w_hash) = committed_hash w n k in
      elim (binds claims_ds (committed_values v a) (committed_values w b) (v_hash ∙ sym w_hash)) [
        | inr collision ↦ inr collision
        | inl same ↦
            let (nationality, age, expiry) = same_commitments v w a b same in
            elim (binds nationality_commitment_ds _ _ nationality) [
              | inr collision ↦ inr collision
              | inl nationalities ↦ elim (binds expiry_commitment_ds _ _ expiry) [
                | inr collision ↦ inr collision
                | inl expiries ↦
                    let (e₁, e₂) = pair_injective _ _ _ _ nationalities in
                    let (e₃, e₄) = pair_injective _ _ _ _ expiries in
                    let e₅ : v.min_age_proven ≡ w.min_age_proven =
                      v_age ∙ ap integer age ∙ sym w_age in
                    inl (witness_eq v w e₅ e₁ e₂ e₃ e₄)
              ]
            ]
      ]
