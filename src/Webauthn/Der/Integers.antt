-- ===== src/Webauthn/Der/Integers.antt =====
-- The content of one INTEGER: what `readInteger` checks, against the specified encoding.
use magna_monorepo.Base.{
  ℕ, ◌-◌, ◌≤◌, ◌<◌, ◌≡◌, sym, ◌∙◌, true, false, List, [], ◌∷◌, ◌++◌, some, ok, ◌==◌, length, All,
  replicate, arith, inl, inr, Bool-cases,
}
use magna_monorepo.Base.Numbers.{IsByte}
use magna_monorepo.Base.Radix.{
  of_digits, to_digits, of_digits-to_digits, to_digits-of_digits, to_digits-head, to_digits-length,
  of_digits_pos,
}
use magna_monorepo.Webauthn.Der.{p256_order, high_bit, check_integer}
use magna_monorepo.Webauthn.Der.Encoding.{content, bytes_32}

-- A positive number below the order of the group.
abbrev pub InRange : ℕ → Type 0
InRange n = (0 < n) × (n < p256_order)

-- What the checks establish of a content that passes them.
pub record IsContent (c out : List ℕ) : Type 0 where
  pub value : ℕ
  pub encoded : c ≡ content value
  pub in_range : InRange value
  pub padded : out ≡ bytes_32 value

leading :
    (d : ℕ) (ds : List ℕ)
    → 0 < d
    → All IsByte (d ∷ ds)
    → to_digits 256 (of_digits 256 (d ∷ ds)) ≡ d ∷ ds
leading d ds h (p, k) = to_digits-of_digits 256 d ds (omega arith) h p k

IsContent-low :
    (d : ℕ) (ds out : List ℕ)
    → 0 < d
    → high_bit (some d) ≡ false
    → All IsByte (d ∷ ds)
    → of_digits 256 (d ∷ ds) < p256_order
    → replicate (32 - length (d ∷ ds)) 0 ++ (d ∷ ds) ≡ out
    → IsContent (d ∷ ds) out
IsContent-low d ds out pos low bytes small e =
    let printed = leading d ds pos bytes in
    record {
      value = of_digits 256 (d ∷ ds);
      encoded = unfold content in rw (printed, low);
      in_range = (of_digits_pos 256 d ds (omega arith) pos, small);
      padded = sym e ∙ unfold bytes_32 in rw printed;
    }

IsContent-high :
    (d : ℕ) (ds out : List ℕ)
    → 0 < d
    → high_bit (some d) ≡ true
    → All IsByte (d ∷ ds)
    → of_digits 256 (d ∷ ds) < p256_order
    → replicate (32 - length (d ∷ ds)) 0 ++ (d ∷ ds) ≡ out
    → IsContent (0 ∷ d ∷ ds) out
IsContent-high d ds out pos high bytes small e =
    let printed = leading d ds pos bytes in
    record {
      value = of_digits 256 (d ∷ ds);
      encoded = unfold content in rw (printed, high);
      in_range = (of_digits_pos 256 d ds (omega arith) pos, small);
      padded = sym e ∙ unfold bytes_32 in rw printed;
    }

-- A content that passes the checks is the encoding of a number in range.
pub check_integer_sound :
    (c out : List ℕ) → All IsByte c → check_integer c ≡ ok out → IsContent c out
unfolding check_integer
check_integer_sound [] out bytes e = cc
check_integer_sound (b ∷ []) out bytes e = elim (Bool-cases (b == 0)) [
  | inl is_zero ↦ absurd (ground arith)
  | inr other ↦
      IsContent-low b [] out (ground arith) (ground arith) bytes (ground arith) (ground arith)
]
check_integer_sound (b ∷ d ∷ ds) out bytes e = elim (Bool-cases (b == 0)) [
  | inl is_zero ↦
      let zero_first : b ≡ 0 = ground arith in
      rw zero_first (
        IsContent-high d ds out (ground arith) (ground arith) bytes.1 (ground arith) (ground arith))
  | inr other ↦
      IsContent-low b (d ∷ ds) out (ground arith) (ground arith) bytes (ground arith) (ground arith)
]

module _ (d : ℕ) (ds : List ℕ) (positive : 0 < d) (short : length (d ∷ ds) ≤ 32)
    (small : of_digits 256 (d ∷ ds) < p256_order) where
  check_low :
      high_bit (some d) ≡ false
      → check_integer (d ∷ ds) ≡ ok (replicate (32 - length (d ∷ ds)) 0 ++ (d ∷ ds))
  unfolding check_integer
  check_low low = ground arith

  check_high :
      high_bit (some d) ≡ true
      → check_integer (0 ∷ d ∷ ds) ≡ ok (replicate (32 - length (d ∷ ds)) 0 ++ (d ∷ ds))
  unfolding check_integer
  check_high high = ground arith

-- The encoding of every number in range passes them, and gives its 32 bytes.
pub check_integer-content : (n : ℕ) → InRange n → check_integer (content n) ≡ ok (bytes_32 n)
check_integer-content n (pos, small) =
    let (d, ds, printed, positive) = to_digits-head 256 n (omega arith) pos in
    let short : length (d ∷ ds) ≤ 32 =
      rw printed at (to_digits-length 256 n 31 (omega arith) (omega arith)) in
    let value : of_digits 256 (d ∷ ds) ≡ n =
      rw printed at (of_digits-to_digits 256 n (omega arith)) in
    let below : of_digits 256 (d ∷ ds) < p256_order = rw value small in
    let out : bytes_32 n ≡ replicate (32 - length (d ∷ ds)) 0 ++ (d ∷ ds) =
      unfold bytes_32 in rw printed in
    elim (Bool-cases (high_bit (some d))) [
      | inl high ↦
          let is : content n ≡ 0 ∷ d ∷ ds = unfold content in rw (printed, high) in
          rw (is, out) (check_high d ds positive short below high)
      | inr low ↦
          let is : content n ≡ d ∷ ds = unfold content in rw (printed, low) in
          rw (is, out) (check_low d ds positive short below low)
    ]
