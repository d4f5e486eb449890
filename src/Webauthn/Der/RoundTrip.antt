-- ===== src/Webauthn/Der/RoundTrip.antt =====
-- The decoder accepts the encoding of every pair of numbers in range.
use magna_monorepo.Base.{
  ℕ, suc, ◌+◌, ◌-◌, ◌≤◌, ◌≡◌, refl, sym, ap, ◌∙◌, true, false, List, [], ◌∷◌, ◌++◌, some, ok, ltb,
  length, arith, get_elem?, take, drop, drop-drop, take-append, drop-append, length-drop,
  length-append, subst, cons_of_drop, le→ltb, ==_refl,
}
use mathlib.Core.List.{append-nil}
use magna_monorepo.Base.Radix.{to_digits-head, to_digits-length}
use magna_monorepo.Webauthn.Der.{
  reads, high_bit, read_integer, read_integers, decode_ecdsa_der_signature,
}
use magna_monorepo.Webauthn.Der.Encoding.{content, integer_tlv, encode_signature, bytes_32}
use magna_monorepo.Webauthn.Der.Integers.{InRange, check_integer-content}

length-content : (n : ℕ) → InRange n → (1 ≤ length (content n)) × (length (content n) ≤ 33)
unfolding content
length-content n (pos, small) =
    let (d, ds, printed, _) = to_digits-head 256 n (omega arith) pos in
    let short : length (d ∷ ds) ≤ 32 =
      rw printed at (to_digits-length 256 n 31 (omega arith) (omega arith)) in
    rw printed (ground arith)

get_of_drop :
    {A : Type 0} (xs : List A) (i : ℕ) (a b : A) (t : List A)
    → drop i xs ≡ a ∷ b ∷ t
    → (get_elem? xs i ≡ some a) × (get_elem? xs (i + 1) ≡ some b) × (drop (i + 2) xs ≡ t)
get_of_drop xs i a b t h =
    let (first, rest) = cons_of_drop xs i h in
    let (second, rest') = cons_of_drop xs (suc i) rest in
    let one : suc i ≡ i + 1 = omega arith in
    let two : suc (suc i) ≡ i + 2 = omega arith in
    (
      first,
      subst (λ (k : ℕ). get_elem? xs k ≡ some b) one second,
      subst (λ (k : ℕ). drop k xs ≡ t) two rest',
    )

read_integer_complete :
    (der : List ℕ) (offset n : ℕ) (rest : List ℕ)
    → InRange n
    → drop offset der ≡ integer_tlv n ++ rest
    → read_integer der offset ≡ ok (bytes_32 n, offset + 2 + length (content n))
unfolding read_integer
read_integer_complete der offset n rest range e =
    let len : ℕ = length (content n) in
    let e' : drop offset der ≡ 2 ∷ len ∷ (content n ++ rest) = unfold integer_tlv in e in
    let (first, second, body) = get_of_drop der offset 2 len (content n ++ rest) e' in
    let (lo, hi) = length-content n range in
    let body_len : length (drop (offset + 2) der) ≡ len + length rest =
      ap length body ∙ length-append (content n) rest in
    let inside : offset + 2 + len ≤ length der = omega (arith, length-drop (offset + 2) der) in
    let sliced : take len (drop (offset + 2) der) ≡ content n =
      ap (take len) body ∙ take-append (content n) rest in
    rw (first, second)
      (rw (le→ltb (length der) (offset + 2 + len) inside, sliced)
        (rw (check_integer-content n range) (ground arith)))

length-integer_tlv : (n : ℕ) → length (integer_tlv n) ≡ 2 + length (content n)
unfolding integer_tlv
length-integer_tlv n = omega arith

-- Reading both integers of an encoding, from behind the header.
read_integers_complete :
    (der : List ℕ) (m n : ℕ)
    → InRange m
    → InRange n
    → drop 2 der ≡ integer_tlv m ++ integer_tlv n
    → read_integers der 2 ≡ ok (bytes_32 m, bytes_32 n)
unfolding read_integers
read_integers_complete der m n p q e =
    let next : ℕ = 2 + 2 + length (content m) in
    let next_is : 2 + length (integer_tlv m) ≡ next = omega (arith, length-integer_tlv m) in
    let second : drop next der ≡ integer_tlv n ++ [] =
      ap (λ (k : ℕ). drop k der) (sym next_is)
      ∙ sym (drop-drop (length (integer_tlv m)) 2 der)
      ∙ ap (drop (length (integer_tlv m))) e
      ∙ drop-append (integer_tlv m) (integer_tlv n)
      ∙ sym (append-nil (integer_tlv n)) in
    let whole : length (drop 2 der) ≡ length (integer_tlv m) + length (integer_tlv n) =
      ap length e ∙ length-append (integer_tlv m) (integer_tlv n) in
    let at_end : next + 2 + length (content n) ≡ length der =
      omega (arith, whole, length-drop 2 der, length-integer_tlv m, length-integer_tlv n) in
    rw (read_integer_complete der 2 m (integer_tlv n) p e)
      (rw (read_integer_complete der next n [] q second) (rw at_end (rw (==_refl (length der)))))

-- The encoding of two numbers in range is accepted, and gives the 32 bytes of each.
pub decode-encode_signature :
    (m n : ℕ)
    → InRange m
    → InRange n
    → decode_ecdsa_der_signature (encode_signature m n) ≡ ok (bytes_32 m, bytes_32 n)
unfolding decode_ecdsa_der_signature encode_signature
decode-encode_signature m n p q =
    let body : List ℕ = integer_tlv m ++ integer_tlv n in
    let len : length body ≡ 4 + length (content m) + length (content n) = omega (
      arith,
      length-append (integer_tlv m) (integer_tlv n),
      length-integer_tlv m,
      length-integer_tlv n,
    ) in
    let (lo_m, hi_m) = length-content m p in
    let (lo_n, hi_n) = length-content n q in
    let long_enough : ltb (length (0x30 ∷ length body ∷ body)) 8 ≡ false = ground (arith, len) in
    let short_form : high_bit (some (length body)) ≡ false = ground (arith, len) in
    let same_length : reads (some (length body)) (length (0x30 ∷ length body ∷ body) - 2) ≡ true =
      ground arith in
    rw (long_enough, short_form, same_length)
      (read_integers_complete (encode_signature m n) m n p q refl)
