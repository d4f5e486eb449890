-- ===== src/Webauthn/Der.antt =====
-- packages/magna-wallet/src/webauthn/der.ts: strict DER decoding of ES256 signatures, and the low-s
-- form. The elements of a Uint8Array are below 256, so `v << 8 | b` is `v * 256 + b`, `v & 0xff` is
-- `v % 256` and `b & 0x80` is the bit `b / 128 % 2`. A read past the end is `undefined`.
pub mod Encoding
pub mod Integers
pub mod Strict
pub mod RoundTrip
pub mod LowS
use magna_monorepo.Base.{
  ℕ, zero, suc, ◌+◌, ◌-◌, ◌*◌, ◌/◌, ◌%◌, Bool, true, false, ◌&&◌, ◌||◌, not, List, [], ◌∷◌, ◌++◌,
  Option, none, some, Result, ok, err, throw_if, ◌>>=◌, ◌>>◌, ltb, leb, ◌==◌, if◌then◌else◌, length,
  all, get_elem?, take, drop, replicate,
}
use magna_monorepo.Base.Radix.{of_digits}

abbrev pub p256_order : ℕ
p256_order = 0xffffffff00000000ffffffffffffffffbce6faada7179e84f3b9cac2fc632551

pub data DerError : Type 0 where
  not_sequence long_form length_mismatch expected_integer bad_integer_length : DerError
  overruns negative non_minimal too_large zero_integer out_of_range trailing_bytes : DerError
  s_length s_range : DerError

-- `read === k`, and `read & 0x80` as a test; both are false of `undefined`.
abbrev pub reads : Option ℕ → ℕ → Bool
reads none k = false
reads (some b) k = b == k

abbrev pub high_bit : Option ℕ → Bool
high_bit none = false
high_bit (some b) = not (b / 128 % 2 == 0)

-- `bytesToBigInt`
unfoldable pub bytes_to_bigint : List ℕ → ℕ
bytes_to_bigint bytes = of_digits 256 bytes

-- `bytes[0] === 0x00 ? bytes.slice(1) : bytes`
abbrev pub strip_zero : List ℕ → List ℕ
strip_zero bytes = if reads (get_elem? bytes 0) 0 then drop 1 bytes else bytes

-- The checks of `readInteger` on the content bytes, and the 32 bytes that it returns.
unfoldable pub check_integer : List ℕ → Result DerError (List ℕ)
unfolding bytes_to_bigint
check_integer bytes = do
  throw_if (high_bit (get_elem? bytes 0)) negative
  throw_if
      (ltb 1 (length bytes) && reads (get_elem? bytes 0) 0 && not (high_bit (get_elem? bytes 1)))
      non_minimal
  let stripped = strip_zero bytes
  throw_if (ltb 32 (length stripped)) too_large
  throw_if (all (λ b. b == 0) stripped) zero_integer
  throw_if (leb p256_order (bytes_to_bigint stripped)) out_of_range
  ok (replicate (32 - length stripped) 0 ++ stripped)

-- `offset + len > der.length`, false where `len` is `undefined`.
abbrev pub past_end : List ℕ → ℕ → Option ℕ → Bool
past_end der offset none = false
past_end der offset (some len) = ltb (length der) (offset + len)

-- `der.slice(offset, offset + len)` and the offset behind it. With no length byte the slice is
-- empty, and the offset (NaN) is never used, since `check_integer` refuses the empty content.
abbrev pub slice_content : List ℕ → ℕ → Option ℕ → List ℕ × ℕ
slice_content der offset none = ([], offset)
slice_content der offset (some len) = (take len (drop offset der), offset + len)

-- `readInteger`, with the offset that it leaves.
unfoldable pub read_integer : List ℕ → ℕ → Result DerError (List ℕ × ℕ)
read_integer der offset = do
  throw_if (not (reads (get_elem? der offset) 0x02)) expected_integer
  let len = get_elem? der (offset + 1)
  throw_if (reads len 0 || high_bit len) bad_integer_length
  throw_if (past_end der (offset + 2) len) overruns
  let content = slice_content der (offset + 2) len
  out ← check_integer content.0
  ok (out, content.1)

-- `const r = readInteger(); const s = readInteger();` and the last check.
unfoldable pub read_integers : List ℕ → ℕ → Result DerError (List ℕ × List ℕ)
read_integers der offset = do
  (r, after_r) ← read_integer der offset
  (s, after_s) ← read_integer der after_r
  throw_if (not (after_s == length der)) trailing_bytes
  ok (r, s)

unfoldable pub decode_ecdsa_der_signature : List ℕ → Result DerError (List ℕ × List ℕ)
decode_ecdsa_der_signature der = do
  throw_if (ltb (length der) 8 || not (reads (get_elem? der 0) 0x30)) not_sequence
  throw_if (high_bit (get_elem? der 1)) long_form
  throw_if (not (reads (get_elem? der 1) (length der - 2))) length_mismatch
  read_integers der 2

-- `bigIntTo32Bytes`: `i` counts the bytes still to write, from the last one down.
unfoldable pub to_bytes_loop : ℕ → ℕ → List ℕ → List ℕ
to_bytes_loop zero v out = out
to_bytes_loop (suc i) v out = to_bytes_loop i (v / 256) ((v % 256) ∷ out)

unfoldable pub bigint_to_32_bytes : ℕ → List ℕ
unfolding to_bytes_loop
bigint_to_32_bytes v = to_bytes_loop 32 v []

unfoldable pub normalize_s_to_low : List ℕ → Result DerError (List ℕ)
unfolding bytes_to_bigint bigint_to_32_bytes
normalize_s_to_low s = do
  throw_if (not (length s == 32)) s_length
  let value = bytes_to_bigint s
  throw_if (value == 0 || leb p256_order value) s_range
  ok (if leb value (p256_order / 2) then s else bigint_to_32_bytes (p256_order - value))
