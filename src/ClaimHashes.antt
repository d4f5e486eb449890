-- ===== src/ClaimHashes.antt =====
-- packages/magna-wallet/src/engine/encoding.ts, ghost.ts and root.ts: the hashes that stand for the claims
-- of a credential and for its identifier. The hashers are parameters.
pub mod Binding
pub mod Instagram
mod Examples
use magna_monorepo.Base.{
  ℕ, ◌+◌, ◌-◌, ◌*◌, ◌/◌, ◌%◌, ◌^◌, Bool, true, false, ◌&&◌, ◌||◌, not, List, [], ◌∷◌, ◌++◌, Option,
  none, some, Result, ok, err, throw_if, ◌>>=◌, ◌>>◌, ltb, leb, ◌==◌, length, all, if◌then◌else◌,
}
use magna_monorepo.Base.Numbers.{ℤ, pos, negsuc}
use magna_monorepo.Base.Texts.{codes}
use magna_monorepo.Base.Radix.{of_digits, pad_start}
use magna_monorepo.Core.Values.{Number, integer, not_integer}
use magna_monorepo.Core.Bytes.{is_hex, to_string_radix}
use magna_monorepo.Core.ConnectorProtocol.{is_digit}
use magna_monorepo.Core.BigInts.{parse_bigint}

pub data ClaimError : Type 0 where
  bad_alpha3 not_passport not_instagram bad_schema_version not_an_integer : ClaimError
  handle_too_long zero_blind bad_identifier : ClaimError

abbrev pub claims_ds : ℕ
claims_ds = 0x4d414743

abbrev pub revocation_ds : ℕ
revocation_ds = 0x4d415247

abbrev pub root_authority_revocation_ds : ℕ
root_authority_revocation_ds = 0x4d415241

abbrev pub ghost_ds : ℕ
ghost_ds = 0x4d414748

abbrev pub root_ds : ℕ
root_ds = 0x4d414749

abbrev pub nationality_commitment_ds : ℕ
nationality_commitment_ds = 0x4d414e43

abbrev pub expiry_commitment_ds : ℕ
expiry_commitment_ds = 0x4d414558

abbrev pub is_letter : ℕ → Bool
is_letter c = leb b'A' c && leb c b'Z'

unfoldable pub pack_alpha3 : List ℕ → Result ClaimError ℤ
pack_alpha3 (a ∷ b ∷ c ∷ []) =
    if is_letter a && is_letter b && is_letter c
    then ok (pos (a * 2 ^ 16 + b * 2 ^ 8 + c))
    else err bad_alpha3
pack_alpha3 _ = err bad_alpha3

-- `BigInt(n)`, which throws a RangeError on a number that is no integer.
abbrev pub to_bigint : Number → Result ClaimError ℤ
to_bigint (integer n) = ok n
to_bigint not_integer = err not_an_integer

-- `n === m`, for a constant m.
abbrev pub is_number : ℕ → Number → Bool
is_number m (integer (pos n)) = n == m
is_number m (integer (negsuc n)) = false
is_number m not_integer = false

pub record PassportCanonicalClaims : Type 0 where
  pub schema_version : Number
  pub credential_type : Number
  pub nationality_alpha3_packed : ℤ
  pub min_age_proven : Number
  pub expiry_ts : ℤ

pub record PassportCommittedClaims : Type 0 where
  pub schema_version : Number
  pub credential_type : Number
  pub nationality_commitment : ℤ
  pub min_age_proven : Number
  pub expiry_commitment : ℤ

pub record PassportCommittedClaimsWitness : Type 0 where
  pub min_age_proven : Number
  pub nationality_alpha3_packed : ℤ
  pub nationality_blind : ℤ
  pub expiry_ts : ℤ
  pub expiry_blind : ℤ

unfoldable pub build_passport_committed_claims_witness :
    PassportCanonicalClaims → ℤ → ℤ → PassportCommittedClaimsWitness
build_passport_committed_claims_witness claims nationality_blind expiry_blind = record {
  min_age_proven = claims.min_age_proven;
  nationality_alpha3_packed = claims.nationality_alpha3_packed;
  nationality_blind = nationality_blind;
  expiry_ts = claims.expiry_ts;
  expiry_blind = expiry_blind;
}

-- `/^0x[0-9a-fA-F]+$/` and `/^[0-9]+$/`.
abbrev pub is_hex_literal : List ℕ → Bool
is_hex_literal (a ∷ b ∷ c ∷ rest) = a == b'0' && b == b'x' && all is_hex (c ∷ rest)
is_hex_literal _ = false

abbrev pub is_decimal_literal : List ℕ → Bool
is_decimal_literal [] = false
is_decimal_literal (c ∷ cs) = all is_digit (c ∷ cs)

pub data Identifier : Type 0 where
  field_value : ℤ → Identifier
  field_text : List ℕ → Identifier

abbrev pub or_bad_identifier : Option ℤ → Result ClaimError ℤ
or_bad_identifier none = err bad_identifier
or_bad_identifier (some n) = ok n

unfoldable pub parse_unique_identifier_field : Identifier → Result ClaimError ℤ
unfolding parse_bigint
parse_unique_identifier_field (field_value n) = ok n
parse_unique_identifier_field (field_text s) =
    if is_hex_literal s || is_decimal_literal s
    then or_bad_identifier (parse_bigint s)
    else err bad_identifier

-- `??` of a domain separator.
abbrev pub or_default : Option ℕ → ℕ → ℕ
or_default none d = d
or_default (some n) d = n

pub data GhostDerivationVersion : Type 0 where
  v1_legacy_unscoped v2_scoped : GhostDerivationVersion

pub record GhostKeyMaterial : Type 0 where
  pub scope : List ℕ
  pub derivation_version : GhostDerivationVersion
  pub domain_separator : ℕ
  pub seed_field : ℕ
  pub salt_hex : List ℕ
  pub signing_key_hex : List ℕ

-- A hasher of field elements under a domain separator, whose values are field elements.
module _ (hasher : ℕ → List ℤ → ℕ) where
  unfoldable pub compute_passport_claims_hash : PassportCanonicalClaims → Result ClaimError ℕ
  compute_passport_claims_hash claims = do
    throw_if (not (is_number 1 claims.credential_type)) not_passport
    schema ← to_bigint claims.schema_version
    kind ← to_bigint claims.credential_type
    age ← to_bigint claims.min_age_proven
    ok (
        hasher claims_ds
          (schema ∷ kind ∷ claims.nationality_alpha3_packed ∷ age ∷ claims.expiry_ts ∷ []))

  unfoldable pub compute_passport_nationality_commitment : List ℕ → ℤ → Result ClaimError ℕ
  unfolding pack_alpha3
  compute_passport_nationality_commitment alpha3 blind = do
    packed ← pack_alpha3 alpha3
    ok (hasher nationality_commitment_ds (packed ∷ blind ∷ []))

  unfoldable pub compute_passport_expiry_commitment : ℤ → ℤ → ℕ
  compute_passport_expiry_commitment expiry blind =
      hasher expiry_commitment_ds (expiry ∷ blind ∷ [])

  unfoldable pub compute_passport_committed_claims_hash :
      PassportCommittedClaims → Result ClaimError ℕ
  compute_passport_committed_claims_hash claims = do
    throw_if (not (is_number 1 claims.credential_type)) not_passport
    throw_if (not (is_number 2 claims.schema_version)) bad_schema_version
    schema ← to_bigint claims.schema_version
    kind ← to_bigint claims.credential_type
    age ← to_bigint claims.min_age_proven
    ok (
        hasher claims_ds
          (schema ∷ kind ∷ claims.nationality_commitment ∷ age ∷ claims.expiry_commitment ∷ []))

  unfoldable pub compute_passport_committed_claims_hash_from_witness :
      PassportCommittedClaimsWitness → Result ClaimError ℕ
  unfolding compute_passport_committed_claims_hash
  compute_passport_committed_claims_hash_from_witness witness =
      compute_passport_committed_claims_hash (record {
        schema_version = integer (pos 2);
        credential_type = integer (pos 1);
        nationality_commitment = pos (
            hasher nationality_commitment_ds
              (witness.nationality_alpha3_packed ∷ witness.nationality_blind ∷ []));
        min_age_proven = witness.min_age_proven;
        expiry_commitment =
            pos (hasher expiry_commitment_ds (witness.expiry_ts ∷ witness.expiry_blind ∷ []));
      })

  unfoldable pub compute_revocation_nullifier : ℤ → Number → ℤ → Result ClaimError ℕ
  compute_revocation_nullifier secret credential_type claims_hash = do
    kind ← to_bigint credential_type
    ok (hasher revocation_ds (secret ∷ kind ∷ claims_hash ∷ []))

  unfoldable pub compute_root_authority_revocation_nullifier : ℤ → ℤ → ℤ → ℕ
  compute_root_authority_revocation_nullifier secret root_commitment claims_hash =
      hasher root_authority_revocation_ds (secret ∷ root_commitment ∷ claims_hash ∷ [])

  unfoldable pub derive_root_commitment : Identifier → Option ℕ → Result ClaimError ℕ
  unfolding parse_unique_identifier_field
  derive_root_commitment identifier domain_separator = do
    n ← parse_unique_identifier_field identifier
    ok (hasher (or_default domain_separator root_ds) (n ∷ []))

  -- `poseidon2FieldHasher` of the identifier, and of the type of the credential for the scoped version.
  abbrev pub ghost_seed : GhostDerivationVersion → ℕ → ℤ → ℕ → ℕ
  ghost_seed v1_legacy_unscoped ds identifier credential_type = hasher ds (identifier ∷ [])
  ghost_seed v2_scoped ds identifier credential_type =
      hasher ds (identifier ∷ pos credential_type ∷ [])

  abbrev pub or_legacy : Option GhostDerivationVersion → GhostDerivationVersion
  or_legacy none = v1_legacy_unscoped
  or_legacy (some v) = v

  -- The credential's type is a value of its enum.
  unfoldable pub derive_ghost_key_material :
      ℕ → Option GhostDerivationVersion → Identifier → Option ℕ → Result ClaimError GhostKeyMaterial
  unfolding parse_unique_identifier_field to_string_radix
  derive_ghost_key_material credential_type version identifier domain_separator = do
    n ← parse_unique_identifier_field identifier
    let ds = or_default domain_separator ghost_ds
    let seed = ghost_seed (or_legacy version) ds n credential_type
    let seed_hex = pad_start 64 b'0' (to_string_radix 16 seed)
    ok (record {
      scope = codes "magna_recovery::" ++ to_string_radix 10 credential_type;
      derivation_version = or_legacy version;
      domain_separator = ds;
      seed_field = seed;
      salt_hex = seed_hex;
      signing_key_hex = seed_hex;
    })
