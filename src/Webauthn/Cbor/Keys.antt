-- ===== src/Webauthn/Cbor/Keys.antt =====
-- No entry of a map is lost to a repeated key.
use magna_monorepo.Base.{
  ℕ, zero, suc, ◌+◌, ◌%◌, ◌/◌, ◌≡◌, refl, ap, sym, ◌∙◌, false, List, Result, ok, some, throw_if,
  >>=-eq-ok, get_elem?, arith, inl, inr, Option-cases,
}
use magna_monorepo.Webauthn.Cbor.{
  CborError, CborValue, Items, Entries, CborKey, end, entry, as_key, key_eq, map_has, map_set,
  read_length, decode_items, decode_entries, decode_string, decode_array, decode_map, decode_major,
  decode_value, decode_at,
}

-- `map.size`
abbrev pub size : Entries → ℕ
size end = 0
size (entry k v rest) = suc (size rest)

size-map_set :
    (m : Entries) (key : CborKey) (v : CborValue)
    → map_has m key ≡ false
    → size (map_set m key v) ≡ suc (size m)
size-map_set end key v fresh = refl
size-map_set (entry k w rest) key v fresh =
    let differs : key_eq k key ≡ false = ground arith in
    rw differs (ap suc (size-map_set rest key v (ground arith)))

-- The head of a map, and as many entries as it announces.
abbrev pub IsWhole : List ℕ → ℕ → Entries → Type 0
IsWhole input begin m =
    (initial : ℕ) × (len : ℕ) × (offset : ℕ) × (get_elem? input begin ≡ some initial)
    × (initial / 32 ≡ 5)
    × (read_length input (begin + 1) (initial % 32) ≡ ok (len, offset))
    × (size m ≡ len)

module _ (decode : ℕ → Result CborError (CborValue × ℕ)) where
  size-decode_entries :
      (count offset : ℕ) (m out : Entries) (next : ℕ)
      → decode_entries decode count offset m ≡ ok (out, next)
      → size out ≡ size m + count
  unfolding decode_entries
  size-decode_entries zero offset m out next e =
      let same : m ≡ out = ground arith in ap size (sym same) ∙ omega arith
  size-decode_entries (suc count) offset m out next e =
      let ((k, n), first, e₁) = >>=-eq-ok (decode offset) _ e in
      let (key, _, e₂) = >>=-eq-ok (as_key k) _ e₁ in
      let (_, fresh, e₃) = >>=-eq-ok (throw_if (map_has m key) CborError.duplicate_key) _ e₂ in
      let ((v, n'), second, rest) = >>=-eq-ok (decode (offset + n)) _ e₃ in
      let is_new : map_has m key ≡ false = ground arith in
      omega (
        arith,
        size-map_set m key v is_new,
        size-decode_entries count (offset + n + n') (map_set m key v) out next rest,
      )

  -- A map comes from the loop over entries.
  size-decode_map :
      (begin offset len : ℕ) (m : Entries) (n : ℕ)
      → decode_map decode begin offset len ≡ ok (CborValue.map m, n)
      → size m ≡ len
  unfolding decode_map
  size-decode_map begin offset len m n e =
      let ((m', after), entries, rest) = >>=-eq-ok (decode_entries decode len offset end) _ e in
      let same : m' ≡ m = ground arith in
      ap size (sym same) ∙ size-decode_entries len offset end m' after entries ∙ omega arith

  decode_array-ne-map :
      (begin offset len : ℕ) (m : Entries) (n : ℕ)
      → decode_array decode begin offset len ≡ ok (CborValue.map m, n)
      → ⊥
  unfolding decode_array
  decode_array-ne-map begin offset len m n e =
      let ((arr, after), items, rest) = >>=-eq-ok (decode_items decode len offset Items.nil) _ e in
      cc

  decode_major-map :
      (input : List ℕ) (begin offset major info len : ℕ) (m : Entries) (n : ℕ)
      → decode_major decode input begin offset major info len ≡ ok (CborValue.map m, n)
      → (major ≡ 5) × (decode_map decode begin offset len ≡ ok (CborValue.map m, n))
  unfolding decode_major decode_string
  decode_major-map input begin offset major info len m n e = (
    ground (arith, decode_array-ne-map begin offset len m n),
    ground (arith, decode_array-ne-map begin offset len m n),
  )

  decode_value-size :
      (input : List ℕ) (begin : ℕ) (m : Entries) (n : ℕ)
      → decode_value decode input begin ≡ ok (CborValue.map m, n)
      → IsWhole input begin m
  unfolding decode_value
  decode_value-size input begin m n e = elim (Option-cases (get_elem? input begin)) [
    | inl missing ↦ absurd (ground arith)
    | inr (b, found) ↦
        let ((len, offset), first, e₁) =
          >>=-eq-ok (read_length input (begin + 1) (b % 32)) _ (rw (found, decode_value) at e) in
        let (is_map, made) =
          decode_major-map input begin offset (b / 32) (b % 32) len m n (ground arith) in
        (b, len, offset, found, is_map, first, size-decode_map begin offset len m n made)
  ]

-- A map that is decoded, at any depth and offset, stands behind a head of a map's type, and has as many
-- entries as the head announces: none is lost to a repeated key.
pub decode_at-size :
    (levels : ℕ) (input : List ℕ) (offset : ℕ) (m : Entries) (n : ℕ)
    → decode_at levels input offset ≡ ok (CborValue.map m, n)
    → IsWhole input offset m
unfolding decode_at
decode_at-size zero input offset m n e = cc
decode_at-size (suc levels) input offset m n e =
    decode_value-size (decode_at levels input) input offset m n e
