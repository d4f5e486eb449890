-- ===== src/Webauthn/PublicKey.antt =====
-- packages/magna-wallet/src/webauthn/public-key.ts: the P-256 key in a COSE map and in an
-- attestation object. The SPKI path goes through WebCrypto and is not modelled.
pub mod Points
use magna_monorepo.Base.{
  ℕ, zero, suc, ◌+◌, ◌-◌, ◌*◌, ◌/◌, ◌%◌, Bool, true, false, ◌&&◌, ◌||◌, not, List, [], ◌∷◌, ◌++◌,
  Option, none, some, Result, ok, err, throw_if, ◌>>=◌, ◌>>◌, ltb, leb, ◌==◌, if◌then◌else◌, length,
  get_elem?, drop,
}
use magna_monorepo.Base.Numbers.{ℤ, pos, negsuc, int_eq}
use magna_monorepo.Base.Radix.{of_digits}
use magna_monorepo.Base.Texts.{codes}
use magna_monorepo.Webauthn.Cbor.{CborError, CborValue, CborKey, Entries, map_get, decode_cbor}

abbrev pub p256_p : ℕ
p256_p = 0xffffffff00000001000000000000000000000000ffffffffffffffffffffffff

abbrev pub p256_b : ℕ
p256_b = 0x5ac635d8aa3a93e7b3ebbd55769886bc651d06b0cc53b0f63bce3c3e27d2604b

pub record P256PublicKey : Type 0 where
  pub x : List ℕ
  pub y : List ℕ

pub data KeyError : Type 0 where
  cbor : CborError → KeyError
  cose_trailing cose_not_map bad_kty bad_alg bad_crv bad_x bad_y : KeyError
  coordinate_range not_on_curve : KeyError
  object_trailing object_not_map no_auth_data auth_data_short no_attested_data no_cose_key :
      KeyError
  extensions_trailing extensions_not_map auth_data_trailing : KeyError

abbrev pub lift_cbor : Result CborError (CborValue × ℕ) → Result KeyError (CborValue × ℕ)
lift_cbor (ok r) = ok r
lift_cbor (err e) = err (KeyError.cbor e)

-- `mod((x * x * x) - (3n * x) + P256_B)`: the remainder of a difference that may be negative,
-- which `%` rounds towards zero.
unfoldable pub mod_difference : ℕ → ℕ → ℕ
mod_difference a b =
    if leb b a
    then (a - b) % p256_p
    else if (b - a) % p256_p == 0
    then 0
    else p256_p - (b - a) % p256_p

unfoldable pub assert_p256_point : List ℕ → List ℕ → Result KeyError (Unit {0})
assert_p256_point x_bytes y_bytes = do
  let x = of_digits 256 x_bytes
  let y = of_digits 256 y_bytes
  throw_if (leb p256_p x || leb p256_p y) coordinate_range
  throw_if (not (y * y % p256_p == mod_difference (x * x * x + p256_b) (3 * x))) not_on_curve

-- `value.get(key) === n`, for a number key.
abbrev pub is_number : Option CborValue → ℤ → Bool
is_number (some (CborValue.number n)) m = int_eq n m
is_number _ m = false

-- 32 bytes, or the error.
abbrev pub coordinate : Option CborValue → KeyError → Result KeyError (List ℕ)
coordinate (some (CborValue.bytes b)) e = if length b == 32 then ok b else err e
coordinate _ e = err e

abbrev pub map_of : CborValue → KeyError → Result KeyError Entries
map_of (CborValue.map m) e = ok m
map_of _ e = err e

-- `parseCoseP256PublicKeyInternal`, with the number of bytes that it read.
unfoldable pub parse_cose_internal : List ℕ → Bool → Result KeyError (P256PublicKey × ℕ)
parse_cose_internal input allow_trailing = do
  (value, bytes_read) ← lift_cbor (decode_cbor input)
  throw_if (not allow_trailing && not (bytes_read == length input)) cose_trailing
  m ← map_of value cose_not_map
  throw_if (not (is_number (map_get m (CborKey.number (pos 1))) (pos 2))) bad_kty
  throw_if (not (is_number (map_get m (CborKey.number (pos 3))) (negsuc 6))) bad_alg
  throw_if (not (is_number (map_get m (CborKey.number (negsuc 0))) (pos 1))) bad_crv
  x ← coordinate (map_get m (CborKey.number (negsuc 1))) bad_x
  y ← coordinate (map_get m (CborKey.number (negsuc 2))) bad_y
  assert_p256_point x y
  ok (record { x = x; y = y }, bytes_read)

unfoldable pub parse_cose_p256_public_key : List ℕ → Result KeyError P256PublicKey
parse_cose_p256_public_key input = do (key, bytes_read) ← parse_cose_internal input false; ok key

abbrev pub bytes_of : Option CborValue → KeyError → Result KeyError (List ℕ)
bytes_of (some (CborValue.bytes b)) e = ok b
bytes_of _ e = err e

-- `authData[i]`, where the length has been checked.
abbrev pub byte_or_zero : List ℕ → ℕ → ℕ
byte_or_zero xs i = elim (get_elem? xs i) [ none ↦ 0 | some b ↦ b ]

-- What must follow the key: extension data that is one CBOR map, or nothing.
unfoldable pub check_trailing : List ℕ → Bool → Result KeyError (Unit {0})
check_trailing trailing true = do
  (value, bytes_read) ← lift_cbor (decode_cbor trailing)
  throw_if (not (bytes_read == length trailing)) extensions_trailing
  m ← map_of value extensions_not_map
  ok tt
check_trailing trailing false = throw_if (not (length trailing == 0)) auth_data_trailing

-- The part of `p256PublicKeyFromAttestationObject` behind the lookup of `authData`.
unfoldable pub key_from_auth_data : List ℕ → Result KeyError P256PublicKey
key_from_auth_data auth_data = do
  throw_if (ltb (length auth_data) 55) auth_data_short
  let flags = byte_or_zero auth_data 32
  throw_if (flags / 64 % 2 == 0) no_attested_data
  let has_extensions = not (flags / 128 % 2 == 0)
  let cose_start = 55 + (byte_or_zero auth_data 53 * 256 + byte_or_zero auth_data 54)
  throw_if (leb (length auth_data) cose_start) no_cose_key
  (key, bytes_read) ← parse_cose_internal (drop cose_start auth_data) has_extensions
  check_trailing (drop (cose_start + bytes_read) auth_data) has_extensions
  ok key

unfoldable pub key_from_attestation_object : List ℕ → Result KeyError P256PublicKey
key_from_attestation_object input = do
  (value, bytes_read) ← lift_cbor (decode_cbor input)
  throw_if (not (bytes_read == length input)) object_trailing
  m ← map_of value object_not_map
  auth_data ← bytes_of (map_get m (CborKey.text (codes "authData"))) no_auth_data
  key_from_auth_data auth_data
