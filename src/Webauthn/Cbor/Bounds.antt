-- ===== src/Webauthn/Cbor/Bounds.antt =====
-- The decoder never reads past its input: the size of a value ends inside it.
use magna_monorepo.Base.{
  ℕ, zero, suc, ◌+◌, ◌-◌, ◌/◌, ◌%◌, ◌≤◌, ◌<◌, ◌≡◌, List, Result, ok, throw_if, >>=-eq-ok, length,
  get_elem?, arith, inl, inr, Option-cases, get_elem?-lt,
}
use magna_monorepo.Webauthn.Utf8.{text_decode}
use magna_monorepo.Webauthn.Cbor.{
  CborError, CborValue, Items, Entries, push, nil, end, as_key, map_has, map_set, require_bytes,
  read_argument, read_length, decode_items, decode_entries, decode_string, decode_array, decode_map,
  decode_major, decode_value, decode_at, decode_cbor,
}

require_bytes-le :
    (input : List ℕ) (offset n : ℕ) (b : List ℕ)
    → require_bytes input offset n ≡ ok b
    → offset + n ≤ length input
unfolding require_bytes
require_bytes-le input offset n b e = ground arith

read_argument-le :
    (input : List ℕ) (offset n len next : ℕ)
    → read_argument input offset n ≡ ok (len, next)
    → (next ≡ offset + n) × (offset + n ≤ length input)
unfolding read_argument
read_argument-le input offset n len next e = (ground arith, ground arith)

read_length-le :
    (input : List ℕ) (offset info len next : ℕ)
    → offset ≤ length input
    → read_length input offset info ≡ ok (len, next)
    → (offset ≤ next) × (next ≤ length input)
unfolding read_length
read_length-le input offset info len next h e = ground (
  arith,
  read_argument-le input offset 1 len next,
  read_argument-le input offset 2 len next,
  read_argument-le input offset 4 len next,
)

decode_string-le :
    (make : List ℕ → CborValue) (input : List ℕ) (begin offset len : ℕ) (v : CborValue) (n : ℕ)
    → begin < offset
    → decode_string make input begin offset len ≡ ok (v, n)
    → (0 < n) × (begin + n ≤ length input)
unfolding decode_string
decode_string-le make input begin offset len v n lo e =
    let (b, slice, rest) = >>=-eq-ok (require_bytes input offset len) _ e in
    let inside = require_bytes-le input offset len b slice in
    let size : n ≡ offset - begin + len = ground arith in omega arith

module _ (input : List ℕ) (decode : ℕ → Result CborError (CborValue × ℕ)) where
  -- What the calls one level deeper guarantee.
  abbrev IsBounded : Type 0
  IsBounded =
      (offset : ℕ) (v : CborValue) (n : ℕ)
      → decode offset ≡ ok (v, n)
      → (0 < n) × (offset + n ≤ length input)

  decode_items-le :
      IsBounded
      → (count offset : ℕ) (arr out : Items) (next : ℕ) → offset ≤ length input
      → decode_items decode count offset arr ≡ ok (out, next)
      → (offset ≤ next) × (next ≤ length input)
  unfolding decode_items
  decode_items-le ih zero offset arr out next h e = (ground arith, ground arith)
  decode_items-le ih (suc count) offset arr out next h e =
      let ((v, n), first, rest) = >>=-eq-ok (decode offset) _ e in
      let (_, inside) = ih offset v n first in
      let (lo, hi) = decode_items-le ih count (offset + n) (push arr v) out next inside rest in
      (omega arith, hi)

  decode_entries-le :
      IsBounded
      → (count offset : ℕ) (m out : Entries) (next : ℕ) → offset ≤ length input
      → decode_entries decode count offset m ≡ ok (out, next)
      → (offset ≤ next) × (next ≤ length input)
  unfolding decode_entries
  decode_entries-le ih zero offset m out next h e = (ground arith, ground arith)
  decode_entries-le ih (suc count) offset m out next h e =
      let ((k, n), first, e₁) = >>=-eq-ok (decode offset) _ e in
      let (key, _, e₂) = >>=-eq-ok (as_key k) _ e₁ in
      let (_, _, e₃) = >>=-eq-ok (throw_if (map_has m key) CborError.duplicate_key) _ e₂ in
      let ((v, n'), second, rest) = >>=-eq-ok (decode (offset + n)) _ e₃ in
      let (_, inside) = ih (offset + n) v n' second in
      let (lo, hi) =
        decode_entries-le ih count (offset + n + n') (map_set m key v) out next inside rest in
      (omega arith, hi)

  decode_array-le :
      IsBounded
      → (begin offset len : ℕ) (v : CborValue) (n : ℕ) → begin < offset
      → offset ≤ length input
      → decode_array decode begin offset len ≡ ok (v, n)
      → (0 < n) × (begin + n ≤ length input)
  unfolding decode_array
  decode_array-le ih begin offset len v n lo hi e =
      let ((arr, after), items, rest) = >>=-eq-ok (decode_items decode len offset nil) _ e in
      let (up, inside) = decode_items-le ih len offset nil arr after hi items in
      let size : n ≡ after - begin = ground arith in omega arith

  decode_map-le :
      IsBounded
      → (begin offset len : ℕ) (v : CborValue) (n : ℕ) → begin < offset
      → offset ≤ length input
      → decode_map decode begin offset len ≡ ok (v, n)
      → (0 < n) × (begin + n ≤ length input)
  unfolding decode_map
  decode_map-le ih begin offset len v n lo hi e =
      let ((m, after), entries, rest) = >>=-eq-ok (decode_entries decode len offset end) _ e in
      let (up, inside) = decode_entries-le ih len offset end m after hi entries in
      let size : n ≡ after - begin = ground arith in omega arith

  decode_major-le :
      IsBounded
      → (begin offset major info len : ℕ) (v : CborValue) (n : ℕ) → begin < offset
      → offset ≤ length input
      → decode_major decode input begin offset major info len ≡ ok (v, n)
      → (0 < n) × (begin + n ≤ length input)
  unfolding decode_major
  decode_major-le ih begin offset major info len v n lo hi e = ground (
    arith,
    decode_string-le CborValue.bytes input begin offset len v n,
    decode_string-le (λ (b : List ℕ). CborValue.text (text_decode b)) input begin offset len v n,
    decode_array-le ih begin offset len v n,
    decode_map-le ih begin offset len v n,
  )

  decode_value-le :
      IsBounded
      → (begin : ℕ) (v : CborValue) (n : ℕ) → decode_value decode input begin ≡ ok (v, n)
      → (0 < n) × (begin + n ≤ length input)
  unfolding decode_value
  decode_value-le ih begin v n e = elim (Option-cases (get_elem? input begin)) [
    | inl missing ↦ absurd (ground arith)
    | inr (b, found) ↦
        let here : begin < length input = get_elem?-lt input begin found in
        let ((len, offset), first, e₁) =
          >>=-eq-ok (read_length input (begin + 1) (b % 32)) _ (rw (found, decode_value) at e) in
        let (lo, hi) = read_length-le input (begin + 1) (b % 32) len offset (omega arith) first in
        decode_major-le ih begin offset (b / 32) (b % 32) len v n (omega arith) hi (ground arith)
  ]

decode_at-le :
    (levels : ℕ) (input : List ℕ) (offset : ℕ) (v : CborValue) (n : ℕ)
    → decode_at levels input offset ≡ ok (v, n)
    → (0 < n) × (offset + n ≤ length input)
unfolding decode_at
decode_at-le zero input offset v n e = cc
decode_at-le (suc levels) input offset v n e =
    decode_value-le input (decode_at levels input) (decode_at-le levels input) offset v n e

-- A value that is decoded takes at least one byte, and no byte behind the input.
pub decode_cbor-le :
    (input : List ℕ) (v : CborValue) (n : ℕ)
    → decode_cbor input ≡ ok (v, n)
    → (0 < n) × (n ≤ length input)
unfolding decode_cbor
decode_cbor-le input v n e = omega (arith, decode_at-le 33 input 0 v n (ground arith))
