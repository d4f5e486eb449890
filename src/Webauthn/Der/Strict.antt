-- ===== src/Webauthn/Der/Strict.antt =====
-- The decoder is strict: what it accepts is the one encoding of what it returns.
use magna_monorepo.Base.{
  ℕ, suc, ◌+◌, ◌-◌, ◌≤◌, ◌≡◌, refl, sym, ap, ◌∙◌, true, List, [], ◌∷◌, ◌++◌, Option, none, some, ok,
  >>=-eq-ok, length, All, arith, inl, inr, Option-cases, get_elem?, take, drop, drop-cons,
  drop-drop, take-append-drop, length-take, length-drop, All-take, All-drop, subst, ==_iff,
}
use mathlib.Core.List.{append-nil}
use magna_monorepo.Base.Numbers.{IsByte}
use magna_monorepo.Webauthn.Der.{
  reads, check_integer, read_integer, read_integers, decode_ecdsa_der_signature,
}
use magna_monorepo.Webauthn.Der.Encoding.{content, integer_tlv, encode_signature, bytes_32}
use magna_monorepo.Webauthn.Der.Integers.{InRange, check_integer_sound}

reads-some : (o : Option ℕ) (k : ℕ) → reads o k ≡ true → o ≡ some k
reads-some none k h = cc
reads-some (some b) k h = ap some ((==_iff b k).0 h)

-- An INTEGER that is read from `offset` on.
record IsRead (der : List ℕ) (offset : ℕ) (out : List ℕ) (next : ℕ) : Type 0 where
  value : ℕ
  in_range : InRange value
  bytes : drop offset der ≡ integer_tlv value ++ drop next der
  padded : out ≡ bytes_32 value
  inside : next ≤ length der

no_length_byte : (out : List ℕ) → check_integer [] ≡ ok out → ⊥
unfolding check_integer
no_length_byte out e = cc

split_at :
    (der : List ℕ) (offset len : ℕ)
    → get_elem? der offset ≡ some 2
    → get_elem? der (offset + 1) ≡ some len
    → drop offset der ≡ 2 ∷ len ∷ (take len (drop (offset + 2) der) ++ drop (offset + 2 + len) der)
split_at der offset len first second =
    let one : suc offset ≡ offset + 1 = omega arith in
    let two : suc (offset + 1) ≡ offset + 2 = omega arith in
    drop-cons der offset first
    ∙ ap (λ (k : ℕ). 2 ∷ drop k der) one
    ∙ ap (λ t. 2 ∷ t) (drop-cons der (offset + 1) second)
    ∙ ap (λ (k : ℕ). 2 ∷ len ∷ drop k der) two
    ∙ ap (λ t. 2 ∷ len ∷ t)
        (sym (take-append-drop len (drop (offset + 2) der))
          ∙ ap (λ t. take len (drop (offset + 2) der) ++ t) (drop-drop len (offset + 2) der))

IsRead-integer_body :
    (der : List ℕ) (offset len : ℕ) (out : List ℕ)
    → All IsByte der
    → get_elem? der offset ≡ some 2
    → get_elem? der (offset + 1) ≡ some len
    → offset + 2 + len ≤ length der
    → check_integer (take len (drop (offset + 2) der)) ≡ ok out
    → IsRead der offset out (offset + 2 + len)
IsRead-integer_body der offset len out bytes first second inside e =
    let body : List ℕ = take len (drop (offset + 2) der) in
    let is =
      check_integer_sound body out (All-take IsByte len _ (All-drop IsByte (offset + 2) der bytes))
        e in
    let full : length body ≡ len =
      omega (arith, length-take len (drop (offset + 2) der), length-drop (offset + 2) der) in
    let len_is : len ≡ length (content is.value) = sym full ∙ ap length is.encoded in
    record {
      value = is.value;
      in_range = is.in_range;
      bytes =
          split_at der offset len first second
          ∙ ap (λ t. 2 ∷ len ∷ (t ++ drop (offset + 2 + len) der)) is.encoded
          ∙ ap (λ (k : ℕ). 2 ∷ k ∷ (content is.value ++ drop (offset + 2 + len) der)) len_is
          ∙ unfold integer_tlv in refl;
      padded = is.padded;
      inside = inside;
    }

read_integer_sound :
    (der : List ℕ) (offset : ℕ) (out : List ℕ) (next : ℕ)
    → All IsByte der
    → read_integer der offset ≡ ok (out, next)
    → IsRead der offset out next
unfolding read_integer
read_integer_sound der offset out next bytes e = elim (Option-cases (get_elem? der (offset + 1))) [
  | inl missing ↦ absurd (no_length_byte out (ground arith))
  | inr (len, second) ↦
      let first : get_elem? der offset ≡ some 2 =
        reads-some (get_elem? der offset) 2 (ground arith) in
      let after : offset + 2 + len ≡ next = ground arith in
      subst (IsRead der offset out) after
        (IsRead-integer_body der offset len out bytes first second (ground arith) (ground arith))
]

drop_all : (xs : List ℕ) → drop (length xs) xs ≡ []
drop_all [] = refl
drop_all (x ∷ xs) = drop_all xs

-- What is known once both integers have been read.
record IsDecoded (der r s : List ℕ) : Type 0 where
  middle : ℕ
  first : IsRead der 2 r middle
  second : IsRead der middle s (length der)
  header : der ≡ 0x30 ∷ (length der - 2) ∷ drop 2 der

header_of :
    (der : List ℕ)
    → get_elem? der 0 ≡ some 0x30
    → get_elem? der 1 ≡ some (length der - 2)
    → der ≡ 0x30 ∷ (length der - 2) ∷ drop 2 der
header_of der first second = drop-cons der 0 first ∙ ap (λ t. 0x30 ∷ t) (drop-cons der 1 second)

integers_parts :
    (der r s : List ℕ)
    → All IsByte der
    → read_integers der 2 ≡ ok (r, s)
    → (middle : ℕ) × IsRead der 2 r middle × IsRead der middle s (length der)
unfolding read_integers
integers_parts der r s bytes e =
    let ((r', middle), e₁, rest₁) = >>=-eq-ok (read_integer der 2) _ e in
    let ((s', end), e₂, rest₂) = >>=-eq-ok (read_integer der middle) _ rest₁ in
    let at_end : end ≡ length der = ground arith in
    let same_r : r' ≡ r = ground arith in
    let same_s : s' ≡ s = ground arith in
    (
      middle,
      subst (λ t. IsRead der 2 t middle) same_r (read_integer_sound der 2 r' middle bytes e₁),
      subst (λ t. IsRead der middle t (length der)) same_s
          (subst (IsRead der middle s') at_end (read_integer_sound der middle s' end bytes e₂)),
    )

decode_parts :
    (der r s : List ℕ)
    → All IsByte der
    → decode_ecdsa_der_signature der ≡ ok (r, s)
    → IsDecoded der r s
unfolding decode_ecdsa_der_signature
decode_parts der r s bytes e =
    let start : get_elem? der 0 ≡ some 0x30 = reads-some (get_elem? der 0) 0x30 (ground arith) in
    let len : get_elem? der 1 ≡ some (length der - 2) =
      reads-some (get_elem? der 1) (length der - 2) (ground arith) in
    let rest : read_integers der 2 ≡ ok (r, s) = ground arith in
    let whole = integers_parts der r s bytes rest in
    record { middle = whole.0; first = whole.1; second = whole.2; header = header_of der start len }

-- A row of bytes that the decoder accepts is the DER encoding of two numbers in range, whose 32 bytes
-- the decoder returns: no other encoding of them is accepted.
pub decode_ecdsa_der_signature_strict :
    (der r s : List ℕ)
    → All IsByte der
    → decode_ecdsa_der_signature der ≡ ok (r, s)
    → (m : ℕ) × (n : ℕ) × (der ≡ encode_signature m n)
      × InRange m
      × InRange n
      × (r ≡ bytes_32 m)
      × (s ≡ bytes_32 n)
decode_ecdsa_der_signature_strict der r s bytes e =
    let d = decode_parts der r s bytes e in
    let m = d.first.value in
    let n = d.second.value in
    let body : drop 2 der ≡ integer_tlv m ++ integer_tlv n =
      d.first.bytes
      ∙ ap (λ t. integer_tlv m ++ t)
          (d.second.bytes
            ∙ ap (λ t. integer_tlv n ++ t) (drop_all der)
            ∙ append-nil (integer_tlv n)) in
    let len : length der - 2 ≡ length (integer_tlv m ++ integer_tlv n) =
      sym (length-drop 2 der) ∙ ap length body in
    (
      m,
      n,
      d.header
          ∙ ap (λ (k : ℕ). 0x30 ∷ k ∷ drop 2 der) len
          ∙ ap (λ t. 0x30 ∷ length (integer_tlv m ++ integer_tlv n) ∷ t) body
          ∙ unfold encode_signature in refl,
      d.first.in_range,
      d.second.in_range,
      d.first.padded,
      d.second.padded,
    )
