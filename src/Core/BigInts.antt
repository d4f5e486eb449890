-- ===== src/Core/BigInts.antt =====
-- `BigInt(text)`, as ECMAScript's StringToBigInt defines it, over code units.
use magna_monorepo.Base.{
  ℕ, zero, suc, Bool, ◌&&◌, ◌||◌, List, [], ◌∷◌, Option, none, some, map, ltb, leb, ◌==◌,
  if◌then◌else◌, all,
}
use magna_monorepo.Base.Numbers.{ℤ, pos, negsuc}
use magna_monorepo.Base.Radix.{of_digits}
use magna_monorepo.Core.Bytes.{is_hex, hex_value}

-- WhiteSpace and LineTerminator.
unfoldable pub is_space : ℕ → Bool
is_space c =
    (leb 9 c && leb c 13)
    || c == 32
    || c == 160
    || c == 0x1680
    || (leb 0x2000 c && leb c 0x200a)
    || c == 0x2028
    || c == 0x2029
    || c == 0x202f
    || c == 0x205f
    || c == 0x3000
    || c == 0xfeff

unfoldable pub trim_start : List ℕ → List ℕ
unfolding is_space
trim_start [] = []
trim_start (c ∷ cs) = let rest = trim_start cs in if is_space c then rest else c ∷ cs

-- A code unit before what is left of the text behind it.
abbrev pub before_trimmed : ℕ → List ℕ → List ℕ
before_trimmed c [] = if is_space c then [] else c ∷ []
before_trimmed c (d ∷ rest) = c ∷ d ∷ rest

unfoldable pub trim_end : List ℕ → List ℕ
trim_end [] = []
trim_end (c ∷ cs) = before_trimmed c (trim_end cs)

-- One or more digits of a base, and nothing else.
unfoldable pub literal : ℕ → List ℕ → Option ℕ
unfolding is_hex hex_value
literal base [] = none
literal base (c ∷ cs) =
    if all (λ d. is_hex d && ltb (hex_value d) base) (c ∷ cs)
    then some (of_digits base (map hex_value (c ∷ cs)))
    else none

abbrev pub negated : ℕ → ℤ
negated zero = pos zero
negated (suc n) = negsuc n

abbrev pub with_sign : (ℕ → ℤ) → Option ℕ → Option ℤ
with_sign sign none = none
with_sign sign (some n) = some (sign n)

-- What follows a leading `0`.
unfoldable pub after_zero : List ℕ → Option ℕ
unfolding literal
after_zero [] = some 0
after_zero (c ∷ cs) =
    if c == b'x' || c == b'X'
    then literal 16 cs
    else if c == b'o' || c == b'O'
    then literal 8 cs
    else if c == b'b' || c == b'B'
    then literal 2 cs
    else literal 10 (b'0' ∷ c ∷ cs)

unfoldable pub parse_trimmed : List ℕ → Option ℤ
unfolding after_zero
parse_trimmed [] = some (pos 0)
parse_trimmed (c ∷ cs) =
    if c == b'-'
    then with_sign negated (literal 10 cs)
    else if c == b'+'
    then with_sign pos (literal 10 cs)
    else if c == b'0'
    then with_sign pos (after_zero cs)
    else with_sign pos (literal 10 (c ∷ cs))

-- `none` is a SyntaxError.
unfoldable pub parse_bigint : List ℕ → Option ℤ
unfolding trim_start trim_end parse_trimmed
parse_bigint text = parse_trimmed (trim_end (trim_start text))
