-- ===== src/Recovery/Examples.antt =====
-- The theorems on recovery at small field elements.
use magna_monorepo.Base.{ℕ, ◌+◌, ◌^◌, ◌≤◌, ◌<◌, ◌≡◌, refl, List, [], ◌∷◌, some, ok, ◌⊎◌}
use magna_monorepo.Base.Numbers.{pos}
use magna_monorepo.Base.Texts.{codes}
use magna_monorepo.Core.Values.{integer}
use magna_monorepo.Recovery.{
  FieldLike, RecoveryIntentInput, RecoveryAuthorizationInput, RecoveryClaimsInput,
  DerivedRecoveryClaims, recovery_intent_fields, recovery_authorization_fields,
  derive_recovery_claims, pack_alpha3, as_field, as_non_zero_field, as_eth_address, as_u64, as_u8,
}
use magna_monorepo.Recovery.Preimages.{
  recovery_intent_fields-injective, recovery_authorization_fields-injective,
}
use magna_monorepo.Recovery.Claims.{derive_recovery_claims-valid_until}

abbrev at_field : ℕ → FieldLike
at_field n = some (pos n)

abbrev small_intent : RecoveryIntentInput
small_intent = record {
  ethereum_chain_id = at_field 1;
  recovery_portal_l1_address = at_field 2;
  aztec_protocol_version = at_field 3;
  aztec_chain_id = at_field 4;
  issuer_l2_address = at_field 5;
  destination = at_field 6;
  recovery_nonce = at_field 7;
  message_secret_hash = at_field 8;
}

small_intent-fields :
    recovery_intent_fields small_intent ≡ ok (3 ∷ 1 ∷ 2 ∷ 3 ∷ 4 ∷ 5 ∷ 6 ∷ 7 ∷ 8 ∷ [])
unfolding recovery_intent_fields as_field as_non_zero_field as_eth_address
small_intent-fields = refl

recovery_intent_fields-injective_example : small_intent ≡ small_intent
recovery_intent_fields-injective_example =
    recovery_intent_fields-injective small_intent small_intent
      (3 ∷ 1 ∷ 2 ∷ 3 ∷ 4 ∷ 5 ∷ 6 ∷ 7 ∷ 8 ∷ []) small_intent-fields small_intent-fields

abbrev small_authorization : RecoveryAuthorizationInput
small_authorization = record {
  recovery_intent = at_field 1;
  root_commitment = at_field 2;
  claims_hash = at_field 3;
  credential_valid_until = at_field 4;
}

small_authorization-fields :
    recovery_authorization_fields small_authorization ≡ ok (3 ∷ 1 ∷ 2 ∷ 3 ∷ 4 ∷ [])
unfolding recovery_authorization_fields as_field as_non_zero_field as_u64
small_authorization-fields = refl

recovery_authorization_fields-injective_example : small_authorization ≡ small_authorization
recovery_authorization_fields-injective_example =
    recovery_authorization_fields-injective small_authorization small_authorization
      (3 ∷ 1 ∷ 2 ∷ 3 ∷ 4 ∷ []) small_authorization-fields small_authorization-fields

-- A hash that keeps the separator.
abbrev separator : ℕ → List ℕ → ℕ
separator ds values = ds

abbrev small_claims : RecoveryClaimsInput
small_claims = record {
  identity_value = at_field 1;
  recovery_nonce = at_field 2;
  nationality_alpha3 = codes "DEU";
  min_age_proven = integer (pos 18);
  passport_expiry = at_field 5000000;
  proof_current_date = at_field 1000000;
}

abbrev small_derived : DerivedRecoveryClaims
small_derived = record {
  nationality_blind = 0x4d524233;
  expiry_blind = 0x4d524233;
  nationality_commitment = 0x4d414e43;
  expiry_commitment = 0x4d414558;
  claims_hash = 0x4d414743;
  credential_valid_until = 3592000;
}

small_claims-derived : derive_recovery_claims separator small_claims ≡ ok small_derived
unfolding derive_recovery_claims as_field as_non_zero_field as_u64 as_u8 pack_alpha3
small_claims-derived = refl

derive_recovery_claims-valid_until_example :
    (expiry : ℕ) × (current : ℕ) × (at_field 5000000 ≡ some (pos expiry))
    × (at_field 1000000 ≡ some (pos current))
    × (3592000 ≤ expiry)
    × (3592000 ≤ current + 2592000)
    × ((3592000 ≡ expiry) ⊎ (3592000 ≡ current + 2592000))
    × (3592000 < 2 ^ 64)
derive_recovery_claims-valid_until_example =
    derive_recovery_claims-valid_until separator small_claims small_derived small_claims-derived

deu : pack_alpha3 (codes "DEU") ≡ ok 4474197
unfolding pack_alpha3
deu = refl
