-- ===== src/Webauthn/Der/LowS.antt =====
-- The low-s form of a signature.
use magna_monorepo.Base.{
  ℕ, zero, suc, ◌+◌, ◌-◌, ◌*◌, ◌/◌, ◌%◌, ◌^◌, ◌≤◌, ◌<◌, ◌≡◌, ◌⊎◌, ◌≢◌, ap, ◌∙◌, List, [], ◌∷◌, ok,
  err, leb, ◌==◌, if◌then◌else◌, length, All, arith, inl, inr, Bool-cases, length-append,
  length-replicate, replicate, All-append, All-replicate,
}
use native.Mathlib.Nat.{pow-suc, div-lt_iff_lt-mul}
use magna_monorepo.Base.Numbers.{IsByte}
use magna_monorepo.Base.Radix.{
  of_digits, of_digits_from, to_digits, of_digits-to_digits, to_digits-All, to_digits-length,
  of_digits-replicate,
}
use magna_monorepo.Webauthn.Der.{
  p256_order, DerError, s_length, s_range, bytes_to_bigint, to_bytes_loop, bigint_to_32_bytes,
  normalize_s_to_low,
}
use magna_monorepo.Webauthn.Der.Encoding.{bytes_32}
use magna_monorepo.Webauthn.Der.Integers.{InRange}

to_bytes_loop-value :
    (i v : ℕ) (out : List ℕ)
    → v < 256 ^ i
    → of_digits 256 (to_bytes_loop i v out) ≡ of_digits_from 256 v out
unfolding to_bytes_loop
to_bytes_loop-value zero v out h =
    ap (λ (t : ℕ). of_digits_from 256 t out) (let is_zero : 0 ≡ v = omega arith in is_zero)
to_bytes_loop-value (suc i) v out h =
    let smaller : v / 256 < 256 ^ i =
      (div-lt_iff_lt-mul {k = 256} {x = v} {y = 256 ^ i} (omega arith)).1
        (rw (← pow-suc 256 i) h) in
    to_bytes_loop-value i (v / 256) ((v % 256) ∷ out) smaller
    ∙ ap (λ (t : ℕ). of_digits_from 256 t out)
        (let e : v / 256 * 256 + v % 256 ≡ v = omega arith in e)

to_bytes_loop-shape :
    (i v : ℕ) (out : List ℕ)
    → All IsByte out
    → All IsByte (to_bytes_loop i v out) × (length (to_bytes_loop i v out) ≡ i + length out)
unfolding to_bytes_loop
to_bytes_loop-shape zero v out h = (h, omega arith)
to_bytes_loop-shape (suc i) v out h =
    let (bytes, len) = to_bytes_loop-shape i (v / 256) ((v % 256) ∷ out) (omega arith, h) in
    (bytes, omega (arith, len))

-- 32 bytes that stand for `v`.
pub record IsBytesOf (v : ℕ) (s : List ℕ) : Type 0 where
  pub bytes : All IsByte s
  pub len : length s ≡ 32
  pub value : bytes_to_bigint s ≡ v

-- `bigIntTo32Bytes` is right for what fits in 32 bytes.
pub bigint_to_32_bytes-IsBytesOf : (v : ℕ) → v < 256 ^ 32 → IsBytesOf v (bigint_to_32_bytes v)
unfolding bigint_to_32_bytes bytes_to_bigint
bigint_to_32_bytes-IsBytesOf v h =
    let (bytes, len) = to_bytes_loop-shape 32 v [] tt in
    record { bytes = bytes; len = omega (arith, len); value = to_bytes_loop-value 32 v [] h }

-- So are the 32 bytes that the decoder returns.
pub bytes_32-IsBytesOf : (v : ℕ) → v < 256 ^ 32 → IsBytesOf v (bytes_32 v)
unfolding bytes_32 bytes_to_bigint
bytes_32-IsBytesOf v h =
    let k : ℕ = 32 - length (to_digits 256 v) in
    let short : length (to_digits 256 v) ≤ 32 = to_digits-length 256 v 31 (omega arith) h in
    record {
      bytes =
          All-append IsByte (replicate k 0) (to_digits 256 v)
            (All-replicate IsByte k 0 (omega arith)) (to_digits-All 256 v (omega arith));
      len =
          omega
            (arith, length-append (replicate k 0) (to_digits 256 v), length-replicate {A = ℕ} k 0);
      value = of_digits-replicate 256 k (to_digits 256 v) ∙ of_digits-to_digits 256 v (omega arith);
    }

-- The lower of a number and its negative modulo the order.
abbrev pub low : ℕ → ℕ
low v = if leb v (p256_order / 2) then v else p256_order - v

-- The low form stays in range, and is its own low form.
pub low_lem :
    (v : ℕ) → InRange v → InRange (low v) × (low v ≤ p256_order / 2) × (low (low v) ≡ low v)
low_lem v h = (ground arith, ground arith, ground arith)

-- On 32 bytes of a number in range the low form is returned, as 32 bytes, by `normalizeSToLow`.
pub normalize_s_to_low-IsBytesOf :
    (s : List ℕ) (v : ℕ)
    → InRange v
    → IsBytesOf v s
    → (t : List ℕ) × (normalize_s_to_low s ≡ ok t) × IsBytesOf (low v) t
normalize_s_to_low-IsBytesOf s v range is = elim (Bool-cases (leb v (p256_order / 2))) [
  | inl small ↦ (s, unfold normalize_s_to_low in ground (arith, is.value, is.len), rw small is)
  | inr large ↦ (
    bigint_to_32_bytes (p256_order - v),
    unfold normalize_s_to_low in ground (arith, is.value, is.len),
    rw large (bigint_to_32_bytes-IsBytesOf (p256_order - v) (omega arith)),
  )
]

-- A number that is low already keeps its bytes.
pub normalize_s_to_low_of_low :
    (s : List ℕ) (v : ℕ)
    → InRange v
    → IsBytesOf v s
    → v ≤ p256_order / 2
    → normalize_s_to_low s ≡ ok s
unfolding normalize_s_to_low
normalize_s_to_low_of_low s v range is h = ground (arith, is.value, is.len)

-- Any other length, and any number out of range, is refused.
pub normalize_s_to_low_refused :
    (s : List ℕ)
    → (length s ≢ 32) ⊎ ((bytes_to_bigint s ≡ 0) ⊎ (p256_order ≤ bytes_to_bigint s))
    → (e : DerError) × (normalize_s_to_low s ≡ err e)
normalize_s_to_low_refused s h = elim (Bool-cases (length s == 32)) [
  | inl len ↦ (s_range, unfold normalize_s_to_low in ground arith)
  | inr other ↦ (s_length, unfold normalize_s_to_low in ground arith)
]
