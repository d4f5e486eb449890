-- ===== src/Recovery/Claims.antt =====
-- What the claims of a recovered credential promise.
use magna_monorepo.Base.{
  ℕ, ◌+◌, ◌^◌, ◌<◌, ◌≤◌, ◌≡◌, refl, List, [], ◌∷◌, some, ok, >>=-eq-ok, ltb, throw_if, arith,
  if◌then◌else◌, ◌⊎◌,
}
use magna_monorepo.Base.Numbers.{pos}
use magna_monorepo.Recovery.{
  RecoveryClaimsInput, DerivedRecoveryClaims, as_non_zero_field, as_u64, pack_alpha3, as_u8,
  derive_recovery_claims, expiry_overflow,
}
use magna_monorepo.Recovery.Preimages.{as_u64_sound}

-- The packed code determines the three letters.
pub pack_alpha3-injective :
    (s t : List ℕ) (n : ℕ) → pack_alpha3 s ≡ ok n → pack_alpha3 t ≡ ok n → s ≡ t
unfolding pack_alpha3
pack_alpha3-injective (a ∷ b ∷ c ∷ []) (d ∷ e ∷ f ∷ []) n h k =
    let first : a ≡ d = ground arith in
    let second : b ≡ e = ground arith in
    let third : c ≡ f = ground arith in rw (first, second, third) refl
pack_alpha3-injective _ _ n h k = cc

module _ (poseidon : ℕ → List ℕ → ℕ) where
  -- A recovered credential is valid until the passport expires or thirty days after the proof, whichever
  -- is sooner, and that time fits in 64 bits.
  pub derive_recovery_claims-valid_until :
      (input : RecoveryClaimsInput) (d : DerivedRecoveryClaims)
      → derive_recovery_claims poseidon input ≡ ok d
      → (expiry : ℕ) × (current : ℕ) × (input.passport_expiry ≡ some (pos expiry))
        × (input.proof_current_date ≡ some (pos current))
        × (d.credential_valid_until ≤ expiry)
        × (d.credential_valid_until ≤ current + 2592000)
        × ((d.credential_valid_until ≡ expiry) ⊎ (d.credential_valid_until ≡ current + 2592000))
        × (d.credential_valid_until < 2 ^ 64)
  unfolding derive_recovery_claims
  derive_recovery_claims-valid_until input d h =
      let (identity, _, h) =
        >>=-eq-ok (as_non_zero_field input.identity_value "identityValue") _ h in
      let (nonce, _, h) = >>=-eq-ok (as_non_zero_field input.recovery_nonce "recoveryNonce") _ h in
      let (min_age, _, h) = >>=-eq-ok (as_u8 input.min_age_proven) _ h in
      let (expiry, e₁, h) = >>=-eq-ok (as_u64 input.passport_expiry "passportExpiry") _ h in
      let (current, e₂, h) = >>=-eq-ok (as_u64 input.proof_current_date "proofCurrentDate") _ h in
      let (_, e₃, h) =
        >>=-eq-ok (throw_if (ltb 18446744073709551615 (current + 2592000)) expiry_overflow) _ h in
      let (alpha3, _, h) = >>=-eq-ok (pack_alpha3 input.nationality_alpha3) _ h in
      let until : d.credential_valid_until
          ≡ (if ltb expiry (current + 2592000) then expiry else current + 2592000) =
        ground arith in
      let (is_expiry, expiry_fits) = as_u64_sound _ "passportExpiry" expiry e₁ in
      let (is_current, _) = as_u64_sound _ "proofCurrentDate" current e₂ in
      (
        expiry,
        current,
        is_expiry,
        is_current,
        ground arith,
        ground arith,
        ground arith,
        ground arith,
      )
