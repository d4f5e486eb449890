-- ===== src/Core/Bytes.antt =====
-- packages/magna-core/src/bytes.ts. A Uint8Array is a list of numbers below 256, and a string a
-- list of code units.
pub mod RoundTrip
use magna_monorepo.Base.{
  ℕ, zero, suc, ◌+◌, ◌*◌, ◌-◌, ◌≡◌, Bool, true, ◌&&◌, ◌||◌, List, [], ◌∷◌, ◌++◌, map, Result, ok,
  err, throw_if, ◌>>=◌, ◌>>◌, ltb, leb, ◌==◌, if◌then◌else◌, length, all, ◌%◌, not,
}
use magna_monorepo.Base.Radix.{to_digits, pad_start}

pub data HexError : Type 0 where
  odd_length not_hex : HexError

-- The digit characters of `Number.prototype.toString(16)`.
unfoldable pub digit_char : ℕ → ℕ
digit_char d = if ltb d 10 then b'0' + d else b'a' + (d - 10)

-- `n.toString(16)` and `n.toString(10)` for n ≥ 0.
unfoldable pub to_string_radix : ℕ → ℕ → List ℕ
unfolding digit_char to_digits
to_string_radix base n = map digit_char (to_digits base n)

-- `byte.toString(16).padStart(2, "0")`, for each byte in turn.
unfoldable pub bytes_to_hex : List ℕ → List ℕ
unfolding to_string_radix
bytes_to_hex [] = []
bytes_to_hex (byte ∷ bytes) = pad_start 2 b'0' (to_string_radix 16 byte) ++ bytes_to_hex bytes

-- The class [0-9a-fA-F].
unfoldable pub is_hex : ℕ → Bool
is_hex c = (leb b'0' c && leb c b'9') || (leb b'a' c && leb c b'f') || (leb b'A' c && leb c b'F')

-- What one hexadecimal character adds in `Number.parseInt(…, 16)`.
unfoldable pub hex_value : ℕ → ℕ
hex_value c = if leb c b'9' then c - b'0' else if leb c b'F' then c - b'A' + 10 else c - b'a' + 10

-- `normalized.slice(i * 2, i * 2 + 2)` for each i; the length is even here.
unfoldable pub parse_pairs : List ℕ → List ℕ
unfolding hex_value
parse_pairs (high ∷ low ∷ rest) = (hex_value high * 16 + hex_value low) ∷ parse_pairs rest
parse_pairs _ = []

-- `hex.startsWith("0x") ? hex.slice(2) : hex`
unfoldable pub strip_prefix : List ℕ → List ℕ
strip_prefix (a ∷ b ∷ rest) = if a == b'0' && b == b'x' then rest else a ∷ b ∷ rest
strip_prefix s = s

unfoldable pub hex_to_bytes : List ℕ → Result HexError (List ℕ)
unfolding strip_prefix is_hex parse_pairs
hex_to_bytes hex = do
  let normalized = strip_prefix hex
  throw_if (not (length normalized % 2 == 0)) HexError.odd_length
  throw_if (not (all is_hex normalized)) HexError.not_hex
  ok (parse_pairs normalized)
