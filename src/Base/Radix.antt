-- ===== src/Base/Radix.antt =====
-- Positional notation, as `toString(radix)`, `padStart` and the parsers use it.
use Prim.Native.Nat.{ℕ, zero, suc, ◌+◌, ◌-◌, ◌*◌, ◌/◌, ◌%◌, ◌^◌, ◌≤◌, ◌<◌}
use mathlib.Core.Path.{◌≡◌, refl, sym, ◌∙◌, ap, ap₂}
use mathlib.Core.List.{List, [], ◌∷◌, ◌++◌}
use native.Mathlib.Omega.{arith}
use mathlib.Core.Logic.{inl, inr}
use mathlib.Core.List.{append-nil}
use native.Mathlib.Nat.{mod-lt, div-lt_iff_lt-mul, pow-suc, pow-zero}
use magna_monorepo.Base.Tests.{ltb, if◌then◌else◌, Bool-cases, ltb→lt, lt→ltb, le→ltb}
use magna_monorepo.Base.Lists.{length, All, replicate, length-append, length-replicate}

-- The value of a row of digits, most significant first: `v = v * base + d` for each digit.
abbrev pub of_digits_from : ℕ → ℕ → List ℕ → ℕ
of_digits_from base acc [] = acc
of_digits_from base acc (d ∷ ds) = of_digits_from base (acc * base + d) ds

abbrev pub of_digits : ℕ → List ℕ → ℕ
of_digits base ds = of_digits_from base 0 ds

-- The digits of a number, most significant first, with no leading zero; `n + 1` rounds are enough.
pub digits_loop : ℕ → ℕ → ℕ → List ℕ → List ℕ
digits_loop base zero n acc = acc
digits_loop base (suc fuel) n acc =
    let rest = digits_loop base fuel (n / base) ((n % base) ∷ acc) in
    if ltb n base then n ∷ acc else rest

unfoldable pub to_digits : ℕ → ℕ → List ℕ
unfolding digits_loop
to_digits base n = digits_loop base (suc n) n []

div_shrinks : (base n : ℕ) → 2 ≤ base → base ≤ n → n / base < n
div_shrinks base n h k = grind arith

div-pos : (base n : ℕ) → 2 ≤ base → base ≤ n → 0 < n / base
div-pos base n h k = grind arith

div_mod_eq : (base n : ℕ) → n / base * base + n % base ≡ n
div_mod_eq base n = grind arith

-- Digits read back: the value so far is no leading part of the number.
digits_loop-value :
    (base fuel n : ℕ) (acc : List ℕ)
    → 2 ≤ base
    → n < fuel
    → of_digits base (digits_loop base fuel n acc) ≡ of_digits_from base n acc
unfolding digits_loop
digits_loop-value base zero n acc h k = absurd (omega arith)
digits_loop-value base (suc fuel) n acc h k = elim (Bool-cases (ltb n base)) [
  | inl small ↦ rw small (ap (λ (t : ℕ). of_digits_from base t acc) (omega arith))
  | inr big ↦
      let shrinks : n / base < n = div_shrinks base n h (ground arith) in
      rw big (
        digits_loop-value base fuel (n / base) ((n % base) ∷ acc) h (omega arith)
        ∙ ap (λ (t : ℕ). of_digits_from base t acc) (div_mod_eq base n))
]

-- What `toString(radix)` prints is read back.
pub of_digits-to_digits : (base n : ℕ) → 2 ≤ base → of_digits base (to_digits base n) ≡ n
unfolding to_digits
of_digits-to_digits base n h =
    unfold digits_loop in digits_loop-value base (suc n) n [] h (omega arith)

digits_loop_fuel :
    (base f g n : ℕ) (acc : List ℕ)
    → 2 ≤ base
    → n < f
    → n < g
    → digits_loop base f n acc ≡ digits_loop base g n acc
unfolding digits_loop
digits_loop_fuel base zero g n acc h k l = absurd (omega arith)
digits_loop_fuel base (suc f) zero n acc h k l = absurd (omega arith)
digits_loop_fuel base (suc f) (suc g) n acc h k l = elim (Bool-cases (ltb n base)) [
  | inl small ↦ rw small
  | inr big ↦
      let shrinks : n / base < n = div_shrinks base n h (ground arith) in
      rw big (digits_loop_fuel base f g (n / base) ((n % base) ∷ acc) h (omega arith) (omega arith))
]

div_of_digit : (base v d : ℕ) → d < base → (v * base + d) / base ≡ v
div_of_digit base v d h = grind arith

mod_of_digit : (base v d : ℕ) → d < base → (v * base + d) % base ≡ d
mod_of_digit base v d h = grind arith

digit_grows : (base v d : ℕ) → 2 ≤ base → 0 < v → (v < v * base + d) × (base ≤ v * base + d)
digit_grows base v d h k = grind arith

-- One more digit behind a number that is not zero.
digits_loop_step :
    (base v d : ℕ) (acc : List ℕ)
    → 2 ≤ base
    → 0 < v
    → d < base
    → digits_loop base (suc (v * base + d)) (v * base + d) acc
      ≡ digits_loop base (suc v) v (d ∷ acc)
digits_loop_step base v d acc h k l =
    let (grows, big) = digit_grows base v d h k in
    unfold digits_loop in
    rw (le→ltb (v * base + d) base big, div_of_digit base v d l, mod_of_digit base v d l)
      (digits_loop_fuel base (v * base + d) (suc v) v (d ∷ acc) h grows (omega arith))

digits_loop-of_digits :
    (base v : ℕ) (ds acc : List ℕ)
    → 2 ≤ base
    → 0 < v
    → All (λ d. d < base) ds
    → digits_loop base (suc (of_digits_from base v ds)) (of_digits_from base v ds) acc
      ≡ digits_loop base (suc v) v (ds ++ acc)
digits_loop-of_digits base v [] acc h k all = refl
digits_loop-of_digits base v (d ∷ ds) acc h k (p, all) =
    digits_loop-of_digits base (v * base + d) ds acc h
      (let (grows, _) = digit_grows base v d h k in omega arith) all
    ∙ digits_loop_step base v d (ds ++ acc) h k p

-- A row with no leading zero is what `toString(radix)` prints for its value.
pub to_digits-of_digits :
    (base d : ℕ) (ds : List ℕ)
    → 2 ≤ base
    → 0 < d
    → d < base
    → All (λ d. d < base) ds
    → to_digits base (of_digits base (d ∷ ds)) ≡ d ∷ ds
unfolding to_digits
to_digits-of_digits base d ds h k l all =
    let start : 0 * base + d ≡ d = omega arith in
    rw start (
      digits_loop-of_digits base d ds [] h k all
      ∙ unfold digits_loop in rw (lt→ltb d base l) (ap (λ t. d ∷ t) (append-nil ds)))

digits_loop-All :
    (base fuel n : ℕ) (acc : List ℕ)
    → 2 ≤ base
    → All (λ d. d < base) acc
    → All (λ d. d < base) (digits_loop base fuel n acc)
unfolding digits_loop
digits_loop-All base zero n acc h all = all
digits_loop-All base (suc fuel) n acc h all = elim (Bool-cases (ltb n base)) [
  | inl small ↦ rw small (ltb→lt n base small, all)
  | inr big ↦
      rw big
        (digits_loop-All base fuel (n / base) ((n % base) ∷ acc) h (mod-lt n (omega arith), all))
]

-- Every digit that is printed is below the base.
pub to_digits-All : (base n : ℕ) → 2 ≤ base → All (λ d. d < base) (to_digits base n)
unfolding to_digits
to_digits-All base n h = digits_loop-All base (suc n) n [] h tt

div_pow : (base n k : ℕ) → 2 ≤ base → n < base ^ suc k → n / base < base ^ k
div_pow base n k h l =
    (div-lt_iff_lt-mul {k = base} {x = n} {y = base ^ k} (omega arith)).1 (rw (← pow-suc base k) l)

digits_loop-length :
    (base fuel n k : ℕ) (acc : List ℕ)
    → 2 ≤ base
    → n < fuel
    → n < base ^ suc k
    → length (digits_loop base fuel n acc) ≤ suc k + length acc
unfolding digits_loop
digits_loop-length base zero n k acc h f l = absurd (omega arith)
digits_loop-length base (suc fuel) n zero acc h f l =
    let one_digit : base ^ 1 ≡ base = pow-suc base 0 ∙ rw (pow-zero base) (omega arith) in
    rw (lt→ltb n base (rw one_digit at l)) (omega arith)
digits_loop-length base (suc fuel) n (suc k) acc h f l = elim (Bool-cases (ltb n base)) [
  | inl small ↦ rw small (omega arith)
  | inr big ↦
      let shrinks : n / base < n = div_shrinks base n h (ground arith) in
      rw big (
        omega (
          arith,
          digits_loop-length base fuel (n / base) k ((n % base) ∷ acc) h (omega arith)
              (div_pow base n (suc k) h l),
        ))
]

-- A number below `base ^ (k + 1)` has at most `k + 1` digits.
pub to_digits-length :
    (base n k : ℕ) → 2 ≤ base → n < base ^ suc k → length (to_digits base n) ≤ suc k
unfolding to_digits
to_digits-length base n k h l =
    omega (arith, digits_loop-length base (suc n) n k [] h (omega arith) l)

-- `padStart(width, fill)` of a text that may be longer.
abbrev pub pad_start : ℕ → ℕ → List ℕ → List ℕ
pad_start width fill s = replicate (width - length s) fill ++ s

pub length-pad_start :
    (width fill : ℕ) (s : List ℕ) → length s ≤ width → length (pad_start width fill s) ≡ width
length-pad_start width fill s h = omega (
  arith,
  length-append (replicate (width - length s) fill) s,
  length-replicate (width - length s) fill,
)

-- Leading zeros change no value.
pub of_digits-replicate :
    (base k : ℕ) (ds : List ℕ) → of_digits base (replicate k 0 ++ ds) ≡ of_digits base ds
of_digits-replicate base zero ds = refl
of_digits-replicate base (suc k) ds =
    let still_zero : 0 * base + 0 ≡ 0 = omega arith in
    ap (λ (t : ℕ). of_digits_from base t (replicate k 0 ++ ds)) still_zero
    ∙ of_digits-replicate base k ds

-- Rows of equal length are told apart by their values.
of_digits_from-injective :
    (base u v : ℕ) (ds es : List ℕ)
    → length ds ≡ length es
    → All (λ d. d < base) ds
    → All (λ d. d < base) es
    → of_digits_from base u ds ≡ of_digits_from base v es
    → (u ≡ v) × (ds ≡ es)
of_digits_from-injective base u v [] [] len h k e = (e, refl)
of_digits_from-injective base u v [] (y ∷ es) len h k e = absurd (omega arith)
of_digits_from-injective base u v (x ∷ ds) [] len h k e = absurd (omega arith)
of_digits_from-injective base u v (x ∷ ds) (y ∷ es) len (p, h) (q, k) e =
    let (same, tails) =
      of_digits_from-injective base (u * base + x) (v * base + y) ds es (omega arith) h k e in
    (
      sym (div_of_digit base u x p) ∙ ap (λ (t : ℕ). t / base) same ∙ div_of_digit base v y q,
      ap₂ (λ (d : ℕ) t. d ∷ t)
          (sym (mod_of_digit base u x p) ∙ ap (λ (t : ℕ). t % base) same ∙ mod_of_digit base v y q)
          tails,
    )

pub of_digits-injective :
    (base : ℕ) (ds es : List ℕ)
    → length ds ≡ length es
    → All (λ d. d < base) ds
    → All (λ d. d < base) es
    → of_digits base ds ≡ of_digits base es
    → ds ≡ es
of_digits-injective base ds es len h k e = (of_digits_from-injective base 0 0 ds es len h k e).1

digits_loop-head :
    (base fuel n : ℕ) (acc : List ℕ)
    → 2 ≤ base
    → n < fuel
    → 0 < n
    → (d : ℕ) × (ds : List ℕ) × (digits_loop base fuel n acc ≡ d ∷ ds) × (0 < d)
unfolding digits_loop
digits_loop-head base zero n acc h k l = absurd (omega arith)
digits_loop-head base (suc fuel) n acc h k l = elim (Bool-cases (ltb n base)) [
  | inl small ↦ (n, acc, rw small, l)
  | inr big ↦
      let shrinks : n / base < n = div_shrinks base n h (ground arith) in
      let positive : 0 < n / base = div-pos base n h (ground arith) in
      rw big (digits_loop-head base fuel (n / base) ((n % base) ∷ acc) h (omega arith) positive)
]

-- A positive number is printed with no leading zero.
pub to_digits-head :
    (base n : ℕ)
    → 2 ≤ base
    → 0 < n
    → (d : ℕ) × (ds : List ℕ) × (to_digits base n ≡ d ∷ ds) × (0 < d)
unfolding to_digits
to_digits-head base n h l = digits_loop-head base (suc n) n [] h (omega arith) l

pub of_digits_from-le : (base v : ℕ) (ds : List ℕ) → 1 ≤ base → v ≤ of_digits_from base v ds
of_digits_from-le base v [] h = omega arith
of_digits_from-le base v (d ∷ ds) h =
    let grows : v ≤ v * base + d = grind arith in
    omega (arith, of_digits_from-le base (v * base + d) ds h)

-- A row that does not begin with a zero stands for a positive number.
pub of_digits_pos : (base d : ℕ) (ds : List ℕ) → 1 ≤ base → 0 < d → 0 < of_digits base (d ∷ ds)
of_digits_pos base d ds h k = omega (arith, of_digits_from-le base (0 * base + d) ds h)
