-- ===== src/Core/ConnectorProtocol/Decimal.antt =====
-- The canonical decimal texts of a wire policy.
use magna_monorepo.Base.{
  ℕ, zero, suc, ◌-◌, ◌<◌, ◌≡◌, refl, sym, ap, ◌∙◌, true, ◌&&◌, List, [], ◌∷◌, map, leb, ◌==◌, all,
  All, arith, ◌↔◌, inl, inr, Bool-cases,
}
use mathlib.Core.Path.{ap₂}
use magna_monorepo.Base.Radix.{
  of_digits, to_digits, of_digits-to_digits, to_digits-of_digits, to_digits-All, to_digits-head,
}
use magna_monorepo.Core.Bytes.{digit_char, to_string_radix}
use magna_monorepo.Core.ConnectorProtocol.{is_digit, is_canonical_decimal}
use magna_monorepo.Core.ConnectorProtocol.Wire.{parse_decimal}

digit_of_char : (d : ℕ) → d < 10 → (digit_char d - b'0' ≡ d) × (is_digit (digit_char d) ≡ true)
unfolding digit_char is_digit
digit_of_char d h = (ground arith, ground arith)

char_of_digit : (c : ℕ) → is_digit c ≡ true → (c - b'0' < 10) × (digit_char (c - b'0') ≡ c)
unfolding digit_char is_digit
char_of_digit c h = (ground arith, ground arith)

digits_of_chars :
    (ds : List ℕ)
    → All (λ d. d < 10) ds
    → (map (λ c. c - b'0') (map digit_char ds) ≡ ds) × (all is_digit (map digit_char ds) ≡ true)
digits_of_chars [] h = (refl, refl)
digits_of_chars (d ∷ ds) (p, h) =
    let (value, char) = digit_of_char d p in
    let (values, chars) = digits_of_chars ds h in (ap₂ (λ x xs. x ∷ xs) value values, rw char chars)

chars_of_digits :
    (s : List ℕ)
    → all is_digit s ≡ true
    → All (λ d. d < 10) (map (λ c. c - b'0') s) × (map digit_char (map (λ c. c - b'0') s) ≡ s)
chars_of_digits [] h = (tt, refl)
chars_of_digits (c ∷ s) h =
    let (small, char) = char_of_digit c (ground arith) in
    let (smalls, chars) = chars_of_digits s (ground arith) in
    ((small, smalls), ap₂ (λ x xs. x ∷ xs) char chars)

-- `BigInt` reads what `toString` printed.
pub parse_decimal-to_string : (n : ℕ) → parse_decimal (to_string_radix 10 n) ≡ n
unfolding parse_decimal to_string_radix
parse_decimal-to_string n =
    ap (of_digits 10) (digits_of_chars (to_digits 10 n) (to_digits-All 10 n (omega arith))).0
    ∙ of_digits-to_digits 10 n (omega arith)

canonical-to_string_pos : (n : ℕ) → 0 < n → is_canonical_decimal (to_string_radix 10 n) ≡ true
canonical-to_string_pos n h =
    let (d, ds, printed, positive) = to_digits-head 10 n (omega arith) h in
    let small : All (λ d. d < 10) (d ∷ ds) = rw printed at (to_digits-All 10 n (omega arith)) in
    unfold is_canonical_decimal to_string_radix digit_char in
    rw printed (ground (arith, small.0, positive, (digits_of_chars ds small.1).1))

-- Every print of a natural number is canonical.
pub canonical-to_string : (n : ℕ) → is_canonical_decimal (to_string_radix 10 n) ≡ true
canonical-to_string zero = unfold is_canonical_decimal to_string_radix in refl
canonical-to_string (suc n) = canonical-to_string_pos (suc n) (omega arith)

to_string-parse_leading :
    (c : ℕ) (rest : List ℕ)
    → leb b'1' c && leb c b'9' ≡ true
    → all is_digit rest ≡ true
    → to_string_radix 10 (parse_decimal (c ∷ rest)) ≡ c ∷ rest
unfolding to_string_radix parse_decimal
to_string-parse_leading c rest lead h =
    let positive : 0 < c - b'0' = ground arith in
    let (small, char) = char_of_digit c (unfold is_digit in ground arith) in
    let (smalls, chars) = chars_of_digits rest h in
    ap (map digit_char) (
      to_digits-of_digits 10 (c - b'0') (map (λ c. c - b'0') rest) (omega arith) positive small
        smalls)
    ∙ ap₂ (λ x xs. x ∷ xs) char chars

-- A canonical text is the print of the number that it stands for.
pub to_string-parse :
    (s : List ℕ) → is_canonical_decimal s ≡ true → to_string_radix 10 (parse_decimal s) ≡ s
unfolding is_canonical_decimal
to_string-parse [] h = cc
to_string-parse (c ∷ []) h = elim (Bool-cases (c == b'0')) [
  | inl is_zero ↦
      let e : c ≡ b'0' = ground arith in
      rw e (unfold to_string_radix parse_decimal digit_char to_digits in refl)
  | inr other ↦ to_string-parse_leading c [] (ground arith) refl
]
to_string-parse (c ∷ d ∷ rest) h =
    to_string-parse_leading c (d ∷ rest) (ground arith) (ground arith)

-- The texts that `assertCanonicalDecimal` matches are exactly the prints of the natural numbers.
pub is_canonical_decimal_iff :
    (s : List ℕ) → (is_canonical_decimal s ≡ true) ↔ ((n : ℕ) × (s ≡ to_string_radix 10 n))
is_canonical_decimal_iff s =
    (λ h. (parse_decimal s, sym (to_string-parse s h)), λ (n, e). rw e (canonical-to_string n))

-- Every character that is printed is a digit.
pub all_digits-to_string : (n : ℕ) → all is_digit (to_string_radix 10 n) ≡ true
unfolding to_string_radix
all_digits-to_string n = (digits_of_chars (to_digits 10 n) (to_digits-All 10 n (omega arith))).1
