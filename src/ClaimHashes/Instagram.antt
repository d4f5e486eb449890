-- ===== src/ClaimHashes/Instagram.antt =====
-- encoding.ts: the hashes for an Instagram handle. `pedersenHash` is a parameter.
use magna_monorepo.Base.{
  ℕ, ◌+◌, ◌-◌, ◌*◌, ◌/◌, ◌%◌, Bool, false, ◌&&◌, not, List, [], ◌∷◌, ◌++◌, Result, ok, throw_if,
  ◌>>=◌, ◌>>◌, ltb, leb, length, if◌then◌else◌,
}
use magna_monorepo.Base.Numbers.{ℤ, pos, negsuc}
use magna_monorepo.Base.Radix.{of_digits}
use magna_monorepo.Core.Values.{Number}
use magna_monorepo.ClaimHashes.{
  ClaimError, handle_too_long, zero_blind, not_instagram, to_bigint, is_number, claims_ds,
}

abbrev pub instagram_handle_ds : ℕ
instagram_handle_ds = 0x4d414948

abbrev pub instagram_handle_commitment_ds : ℕ
instagram_handle_commitment_ds = 0x4d414943

abbrev pub is_high_surrogate : ℕ → Bool
is_high_surrogate c = leb 0xd800 c && leb c 0xdbff

abbrev pub is_low_surrogate : ℕ → Bool
is_low_surrogate c = leb 0xdc00 c && leb c 0xdfff

-- A code point in UTF-8.
abbrev pub encode_point : ℕ → List ℕ
encode_point p =
    if ltb p 0x80
    then p ∷ []
    else if ltb p 0x800
    then (0xc0 + p / 64) ∷ (0x80 + p % 64) ∷ []
    else if ltb p 0x10000
    then (0xe0 + p / 4096) ∷ (0x80 + p / 64 % 64) ∷ (0x80 + p % 64) ∷ []
    else (0xf0 + p / 262144) ∷ (0x80 + p / 4096 % 64) ∷ (0x80 + p / 64 % 64) ∷ (0x80 + p % 64) ∷ []

-- A code unit that is no part of a pair; a lone surrogate is replaced by U+FFFD.
abbrev pub encode_unit : ℕ → List ℕ
encode_unit c =
    if is_high_surrogate c
    then encode_point 0xfffd
    else if is_low_surrogate c
    then encode_point 0xfffd
    else encode_point c

-- `TextEncoder.encode`
unfoldable pub text_encode : List ℕ → List ℕ
text_encode [] = []
text_encode (c ∷ []) = encode_unit c
text_encode (c ∷ d ∷ rest) =
    let after_pair = text_encode rest in
    let after_one = text_encode (d ∷ rest) in
    if is_high_surrogate c && is_low_surrogate d
    then encode_point (0x10000 + (c - 0xd800) * 1024 + (d - 0xdc00)) ++ after_pair
    else encode_unit c ++ after_one

pub record InstagramCanonicalClaims : Type 0 where
  pub schema_version : Number
  pub credential_type : Number
  pub handle_commitment : ℤ
  pub expiry_ts : ℤ

-- `handleBlind <= 0n`
abbrev pub is_positive : ℤ → Bool
is_positive (pos n) = ltb 0 n
is_positive (negsuc n) = false

module _ (pedersen_hash : List ℤ → ℕ) where
  -- `packed = (packed << 8n) | BigInt(byte)` for each byte.
  unfoldable pub compute_instagram_handle_hash : List ℕ → Result ClaimError ℕ
  unfolding text_encode
  compute_instagram_handle_hash handle = do
    let bytes = text_encode handle
    throw_if (ltb 31 (length bytes)) handle_too_long
    ok (
        pedersen_hash
          (pos instagram_handle_ds ∷ pos (length bytes) ∷ pos (of_digits 256 bytes) ∷ []))

  unfoldable pub compute_instagram_handle_commitment : ℤ → ℤ → Result ClaimError ℕ
  compute_instagram_handle_commitment handle_hash handle_blind = do
    throw_if (not (is_positive handle_blind)) zero_blind
    ok (pedersen_hash (pos instagram_handle_commitment_ds ∷ handle_hash ∷ handle_blind ∷ []))

  unfoldable pub compute_instagram_claims_hash : InstagramCanonicalClaims → Result ClaimError ℕ
  compute_instagram_claims_hash claims = do
    throw_if (not (is_number 3 claims.credential_type)) not_instagram
    schema ← to_bigint claims.schema_version
    kind ← to_bigint claims.credential_type
    ok (
        pedersen_hash
          (pos claims_ds ∷ schema ∷ kind ∷ claims.handle_commitment ∷ claims.expiry_ts ∷ []))
