-- ===== src/Recovery.antt =====
-- packages/magna-recovery-v3/src/encoding.ts: the preimages that a recovery commits to. The Poseidon
-- hash is a parameter.
mod Examples
pub mod Preimages
pub mod Claims
use Prim.Native.String.{String}
use magna_monorepo.Base.{
  ℕ, ◌+◌, ◌*◌, ◌-◌, ◌^◌, Bool, true, false, ◌&&◌, ◌||◌, not, List, [], ◌∷◌, Option, none, some,
  Result, ok, err, throw_if, ◌>>=◌, ◌>>◌, ltb, leb, ◌==◌, if◌then◌else◌,
}
use magna_monorepo.Base.Numbers.{ℤ, pos, negsuc}
use magna_monorepo.Core.Values.{Number, integer, not_integer}
use magna_monorepo.Core.SessionAssertion.{noir_field_modulus}

-- What `value.toBigInt()` or `BigInt(value)` gives, or `none` where it throws.
abbrev pub FieldLike : Type 0
FieldLike = Option ℤ

abbrev pub max_u64 : ℕ
max_u64 = 18446744073709551615

abbrev pub max_u8 : ℕ
max_u8 = 255

abbrev pub max_eth_address : ℕ
max_eth_address = 1461501637330902918203684832716283019655932542975

abbrev pub recovery_v3_schema : ℕ
recovery_v3_schema = 3

abbrev pub recovered_credential_max_age_seconds : ℕ
recovered_credential_max_age_seconds = 30 * 24 * 60 * 60

pub data RecoveryError : Type 0 where
  not_field zero_field not_u64 : String → RecoveryError
  bad_portal bad_trust_context bad_alpha3 bad_min_age expiry_overflow : RecoveryError

pub record RecoveryIntentInput : Type 0 where
  pub ethereum_chain_id : FieldLike
  pub recovery_portal_l1_address : FieldLike
  pub aztec_protocol_version : FieldLike
  pub aztec_chain_id : FieldLike
  pub issuer_l2_address : FieldLike
  pub destination : FieldLike
  pub recovery_nonce : FieldLike
  pub message_secret_hash : FieldLike

pub record RecoveryTrustContextInput : Type 0 where
  pub ethereum_chain_id : FieldLike
  pub recovery_portal_l1_address : FieldLike
  pub aztec_protocol_version : FieldLike
  pub aztec_chain_id : FieldLike
  pub issuer_l2_address : FieldLike
  pub service_scope_hash : FieldLike
  pub service_subscope_hash : FieldLike
  pub nullifier_type : FieldLike
  pub oprf_public_key_hash : FieldLike
  pub recovery_wrapper_version : FieldLike

pub record RecoveryClaimsInput : Type 0 where
  pub identity_value : FieldLike
  pub recovery_nonce : FieldLike
  pub nationality_alpha3 : List ℕ
  pub min_age_proven : Number
  pub passport_expiry : FieldLike
  pub proof_current_date : FieldLike

pub record DerivedRecoveryClaims : Type 0 where
  pub nationality_blind : ℕ
  pub expiry_blind : ℕ
  pub nationality_commitment : ℕ
  pub expiry_commitment : ℕ
  pub claims_hash : ℕ
  pub credential_valid_until : ℕ

pub record RecoveryAuthorizationInput : Type 0 where
  pub recovery_intent : FieldLike
  pub root_commitment : FieldLike
  pub claims_hash : FieldLike
  pub credential_valid_until : FieldLike

unfoldable pub as_field : FieldLike → String → Result RecoveryError ℕ
as_field none label = err (not_field label)
as_field (some (negsuc n)) label = err (not_field label)
as_field (some (pos n)) label = if leb noir_field_modulus n then err (not_field label) else ok n

unfoldable pub as_non_zero_field : FieldLike → String → Result RecoveryError ℕ
as_non_zero_field value label = do
  parsed ← as_field value label
  throw_if (parsed == 0) (zero_field label)
  ok parsed

unfoldable pub as_u64 : FieldLike → String → Result RecoveryError ℕ
as_u64 value label = do
  parsed ← as_field value label
  throw_if (ltb max_u64 parsed) (not_u64 label)
  ok parsed

unfoldable pub as_eth_address : FieldLike → Result RecoveryError ℕ
as_eth_address value = do
  parsed ← as_field value "recoveryPortalL1Address"
  throw_if (parsed == 0 || ltb max_eth_address parsed) bad_portal
  ok parsed

-- The values that `computeRecoveryIntent` hashes.
unfoldable pub recovery_intent_fields : RecoveryIntentInput → Result RecoveryError (List ℕ)
recovery_intent_fields input = do
  chain ← as_non_zero_field input.ethereum_chain_id "ethereumChainId"
  portal ← as_eth_address input.recovery_portal_l1_address
  version ← as_non_zero_field input.aztec_protocol_version "aztecProtocolVersion"
  aztec ← as_non_zero_field input.aztec_chain_id "aztecChainId"
  issuer ← as_non_zero_field input.issuer_l2_address "issuerL2Address"
  destination ← as_non_zero_field input.destination "destination"
  nonce ← as_non_zero_field input.recovery_nonce "recoveryNonce"
  secret ← as_non_zero_field input.message_secret_hash "messageSecretHash"
  ok (
      recovery_v3_schema ∷ chain ∷ portal ∷ version ∷ aztec ∷ issuer ∷ destination ∷ nonce ∷ secret
      ∷ [])

-- The values that `computeRecoveryTrustContext` hashes.
unfoldable pub recovery_trust_context_fields :
    RecoveryTrustContextInput → Result RecoveryError (List ℕ)
recovery_trust_context_fields input = do
  nullifier_type ← as_field input.nullifier_type "nullifierType"
  oprf ← as_field input.oprf_public_key_hash "oprfPublicKeyHash"
  throw_if (not (nullifier_type == 1 && not (oprf == 0)) && not (nullifier_type == 2 && oprf == 0))
      bad_trust_context
  chain ← as_non_zero_field input.ethereum_chain_id "ethereumChainId"
  portal ← as_eth_address input.recovery_portal_l1_address
  version ← as_non_zero_field input.aztec_protocol_version "aztecProtocolVersion"
  aztec ← as_non_zero_field input.aztec_chain_id "aztecChainId"
  issuer ← as_non_zero_field input.issuer_l2_address "issuerL2Address"
  scope ← as_field input.service_scope_hash "serviceScopeHash"
  subscope ← as_field input.service_subscope_hash "serviceSubscopeHash"
  wrapper ← as_non_zero_field input.recovery_wrapper_version "recoveryWrapperVersion"
  ok (
      recovery_v3_schema ∷ chain ∷ portal ∷ version ∷ aztec ∷ issuer ∷ scope ∷ subscope
      ∷ nullifier_type ∷ oprf ∷ wrapper ∷ [])

-- The values that `computeRecoveryAuthorization` hashes.
unfoldable pub recovery_authorization_fields :
    RecoveryAuthorizationInput → Result RecoveryError (List ℕ)
recovery_authorization_fields input = do
  intent ← as_non_zero_field input.recovery_intent "recoveryIntent"
  root ← as_non_zero_field input.root_commitment "rootCommitment"
  claims ← as_non_zero_field input.claims_hash "claimsHash"
  until ← as_u64 input.credential_valid_until "credentialValidUntil"
  until ← as_non_zero_field (some (pos until)) "credentialValidUntil"
  ok (recovery_v3_schema ∷ intent ∷ root ∷ claims ∷ until ∷ [])

abbrev pub is_upper : ℕ → Bool
is_upper c = leb b'A' c && leb c b'Z'

unfoldable pub pack_alpha3 : List ℕ → Result RecoveryError ℕ
pack_alpha3 (a ∷ b ∷ c ∷ []) =
    if is_upper a && is_upper b && is_upper c
    then ok (a * 2 ^ 16 + b * 2 ^ 8 + c)
    else err bad_alpha3
pack_alpha3 _ = err bad_alpha3

-- `Number.isInteger(n) && n >= 0 && n <= 255`, and the integer.
unfoldable pub as_u8 : Number → Result RecoveryError ℕ
as_u8 (integer (pos n)) = if leb n max_u8 then ok n else err bad_min_age
as_u8 (integer (negsuc n)) = err bad_min_age
as_u8 not_integer = err bad_min_age

-- `poseidon`, with the domain separator first.
module _ (poseidon : ℕ → List ℕ → ℕ) where
  unfoldable pub derive_recovery_claims :
      RecoveryClaimsInput → Result RecoveryError DerivedRecoveryClaims
  derive_recovery_claims input = do
    identity ← as_non_zero_field input.identity_value "identityValue"
    nonce ← as_non_zero_field input.recovery_nonce "recoveryNonce"
    min_age ← as_u8 input.min_age_proven
    passport_expiry ← as_u64 input.passport_expiry "passportExpiry"
    current_date ← as_u64 input.proof_current_date "proofCurrentDate"
    let policy_expiry = current_date + recovered_credential_max_age_seconds
    throw_if (ltb max_u64 policy_expiry) expiry_overflow
    let nationality_blind = poseidon 0x4d524233 (recovery_v3_schema ∷ identity ∷ nonce ∷ 1 ∷ [])
    let expiry_blind = poseidon 0x4d524233 (recovery_v3_schema ∷ identity ∷ nonce ∷ 2 ∷ [])
    alpha3 ← pack_alpha3 input.nationality_alpha3
    let nationality_commitment = poseidon 0x4d414e43 (alpha3 ∷ nationality_blind ∷ [])
    let expiry_commitment = poseidon 0x4d414558 (passport_expiry ∷ expiry_blind ∷ [])
    ok (record {
      nationality_blind = nationality_blind;
      expiry_blind = expiry_blind;
      nationality_commitment = nationality_commitment;
      expiry_commitment = expiry_commitment;
      claims_hash =
          poseidon 0x4d414743 (2 ∷ 1 ∷ nationality_commitment ∷ min_age ∷ expiry_commitment ∷ []);
      credential_valid_until =
          if ltb passport_expiry policy_expiry then passport_expiry else policy_expiry;
    })
