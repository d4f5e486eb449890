-- ===== src/Core/Bytes/RoundTrip.antt =====
-- Hexadecimal text and bytes.
use magna_monorepo.Base.{
  ℕ, zero, suc, ◌+◌, ◌*◌, ◌/◌, ◌%◌, ◌<◌, ◌≡◌, refl, ap, Bool, true, ◌&&◌, ◌||◌, List, [], ◌∷◌, map,
  ok, ltb, leb, ◌==◌, if◌then◌else◌, length, all, All, arith, ◌↔◌, not,
}
use magna_monorepo.Base.Numbers.{IsByte}
use magna_monorepo.Base.Texts.{text_eq, eq_of_text_eq}
use magna_monorepo.Base.Radix.{pad_start}
use magna_monorepo.Core.Bytes.{
  digit_char, to_string_radix, bytes_to_hex, is_hex, hex_value, parse_pairs, strip_prefix,
  hex_to_bytes,
}

table_holds : (ℕ → Bool) → ℕ → Bool
table_holds test zero = true
table_holds test (suc size) = table_holds test size && test size

table_holds-at :
    (test : ℕ → Bool) (size i : ℕ) → i < size → table_holds test size ≡ true → test i ≡ true
unfolding table_holds
table_holds-at test zero i below checked = absurd (omega arith)
table_holds-at test (suc size) i below checked = ground (arith, table_holds-at test size i)

-- The two characters that are printed for a byte.
pub hex_pair : ℕ → List ℕ
unfolding digit_char
hex_pair b = digit_char (b / 16) ∷ digit_char (b % 16) ∷ []

hex_pair_table :
    table_holds (λ b. text_eq (pad_start 2 b'0' (to_string_radix 16 b)) (hex_pair b)) 256 ≡ true
unfolding table_holds to_string_radix hex_pair
hex_pair_table = refl

-- A byte is printed as exactly two digits.
pad_start-hex_pair : (b : ℕ) → IsByte b → pad_start 2 b'0' (to_string_radix 16 b) ≡ hex_pair b
pad_start-hex_pair b h = eq_of_text_eq _ _ (table_holds-at _ 256 b h hex_pair_table)

digit_table : table_holds (λ d. (hex_value (digit_char d) == d) && is_hex (digit_char d)) 16 ≡ true
unfolding table_holds hex_value digit_char is_hex
digit_table = refl

digit_char_lem : (d : ℕ) → d < 16 → (hex_value (digit_char d) ≡ d) × (is_hex (digit_char d) ≡ true)
digit_char_lem d h =
    let row : (hex_value (digit_char d) == d && is_hex (digit_char d)) ≡ true =
      table_holds-at _ 16 d h digit_table in
    (ground arith, ground arith)

-- Lower case, for the letters that stand for digits.
unfoldable pub to_lower : ℕ → ℕ
to_lower c = if leb b'A' c && leb c b'F' then c + 32 else c

char_table :
    table_holds
      (λ c. not (is_hex c) || (ltb (hex_value c) 16 && digit_char (hex_value c) == to_lower c))
      128
    ≡ true
unfolding table_holds hex_value digit_char is_hex to_lower
char_table = refl

hex_value_lem :
    (c : ℕ) → is_hex c ≡ true → (hex_value c < 16) × (digit_char (hex_value c) ≡ to_lower c)
hex_value_lem c h =
    let small : c < 128 = unfold is_hex in ground arith in
    let row : (not (is_hex c) || (ltb (hex_value c) 16 && digit_char (hex_value c) == to_lower c))
        ≡ true =
      table_holds-at _ 128 c small char_table in
    (ground arith, ground arith)

-- What is printed: hexadecimal digits in lower case, two for each byte.
pub bytes_to_hex_shape :
    (bs : List ℕ)
    → All IsByte bs
    → (length (bytes_to_hex bs) ≡ 2 * length bs) × (all is_hex (bytes_to_hex bs) ≡ true)
unfolding bytes_to_hex hex_pair
bytes_to_hex_shape [] h = (refl, refl)
bytes_to_hex_shape (b ∷ bs) (hb, h) =
    let (len, digits) = bytes_to_hex_shape bs h in
    let (_, high) = digit_char_lem (b / 16) (omega arith) in
    let (_, low) = digit_char_lem (b % 16) (omega arith) in
    rw (pad_start-hex_pair b hb) (omega (arith, len), rw (high, low) digits)

pub parse_pairs-bytes_to_hex : (bs : List ℕ) → All IsByte bs → parse_pairs (bytes_to_hex bs) ≡ bs
unfolding bytes_to_hex parse_pairs hex_pair
parse_pairs-bytes_to_hex [] h = refl
parse_pairs-bytes_to_hex (b ∷ bs) (hb, h) =
    let (high, _) = digit_char_lem (b / 16) (omega arith) in
    let (low, _) = digit_char_lem (b % 16) (omega arith) in
    let value : b / 16 * 16 + b % 16 ≡ b = omega arith in
    rw (pad_start-hex_pair b hb)
      (rw (high, low, value) (ap (λ t. b ∷ t) (parse_pairs-bytes_to_hex bs h)))

pub strip_prefix-bytes_to_hex :
    (bs : List ℕ) → All IsByte bs → strip_prefix (bytes_to_hex bs) ≡ bytes_to_hex bs
unfolding bytes_to_hex strip_prefix
strip_prefix-bytes_to_hex [] h = refl
strip_prefix-bytes_to_hex (b ∷ bs) (hb, h) =
    let (_, low) = digit_char_lem (b % 16) (omega arith) in
    rw (pad_start-hex_pair b hb) (unfold hex_pair is_hex digit_char in ground (arith, low))

-- `hexToBytes` gives back the bytes that `bytesToHex` printed.
pub hex_to_bytes-bytes_to_hex :
    (bs : List ℕ) → All IsByte bs → hex_to_bytes (bytes_to_hex bs) ≡ ok bs
unfolding hex_to_bytes
hex_to_bytes-bytes_to_hex bs h =
    let (len, digits) = bytes_to_hex_shape bs h in
    let even : length (bytes_to_hex bs) % 2 ≡ 0 = omega (arith, len) in
    rw (strip_prefix-bytes_to_hex bs h, even, digits) (ap ok (parse_pairs-bytes_to_hex bs h))

parse_pairs_sound :
    (s : List ℕ)
    → length s % 2 ≡ 0
    → all is_hex s ≡ true
    → All IsByte (parse_pairs s) × (bytes_to_hex (parse_pairs s) ≡ map to_lower s)
unfolding parse_pairs bytes_to_hex
parse_pairs_sound [] e h = (tt, refl)
parse_pairs_sound (a ∷ []) e h = absurd (omega arith)
parse_pairs_sound (a ∷ b ∷ s) e h =
    let (high, high_char) = hex_value_lem a (ground arith) in
    let (low, low_char) = hex_value_lem b (ground arith) in
    let (bytes, same) = parse_pairs_sound s (omega arith) (ground arith) in
    let v : ℕ = hex_value a * 16 + hex_value b in
    let first : v / 16 ≡ hex_value a = omega arith in
    let second : v % 16 ≡ hex_value b = omega arith in
    let pair : hex_pair v ≡ to_lower a ∷ to_lower b ∷ [] =
      unfold hex_pair in rw (first, second, high_char, low_char) in
    (
      (omega arith, bytes),
      rw (pad_start-hex_pair v (omega arith), pair) (ap (λ t. to_lower a ∷ to_lower b ∷ t) same),
    )

-- Text that `hexToBytes` accepts is the print of its bytes, up to a leading "0x" and letter case.
pub hex_to_bytes_sound :
    (hex bs : List ℕ)
    → hex_to_bytes hex ≡ ok bs
    → All IsByte bs × (bytes_to_hex bs ≡ map to_lower (strip_prefix hex))
unfolding hex_to_bytes
hex_to_bytes_sound hex bs e =
    let parsed : parse_pairs (strip_prefix hex) ≡ bs = ground arith in
    let even : length (strip_prefix hex) % 2 ≡ 0 = ground arith in
    let digits : all is_hex (strip_prefix hex) ≡ true = ground arith in
    rw (← parsed) (parse_pairs_sound (strip_prefix hex) even digits)

-- `hexToBytes` accepts a text exactly when, behind an optional "0x", it is an even number of
-- hexadecimal digits.
pub hex_to_bytes_iff :
    (hex : List ℕ)
    → ((bs : List ℕ) × (hex_to_bytes hex ≡ ok bs))
      ↔ ((length (strip_prefix hex) % 2 ≡ 0) × (all is_hex (strip_prefix hex) ≡ true))
unfolding hex_to_bytes
hex_to_bytes_iff hex = (
  λ (bs, e). (ground arith, ground arith),
  λ (even, digits). (parse_pairs (strip_prefix hex), ground arith),
)

-- A "0x" in front changes nothing.
pub hex_to_bytes-prefixed :
    (bs : List ℕ) → All IsByte bs → hex_to_bytes (b'0' ∷ b'x' ∷ bytes_to_hex bs) ≡ ok bs
unfolding hex_to_bytes strip_prefix
hex_to_bytes-prefixed bs h =
    let (len, digits) = bytes_to_hex_shape bs h in
    let even : length (bytes_to_hex bs) % 2 ≡ 0 = omega (arith, len) in
    rw (even, digits) (ap ok (parse_pairs-bytes_to_hex bs h))
