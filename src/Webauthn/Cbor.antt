-- ===== src/Webauthn/Cbor.antt =====
-- packages/magna-wallet/src/webauthn/cbor.ts. A recursive call goes one level deeper, so the number
-- of levels that are left (33 at the top, for the depths 0 to 32) is what the decoder recurs on.
pub mod Bounds
pub mod Keys
use magna_monorepo.Base.{
  ℕ, zero, suc, ◌+◌, ◌-◌, ◌*◌, ◌/◌, ◌%◌, Bool, true, false, ◌&&◌, ◌||◌, not, List, [], ◌∷◌, ◌++◌,
  Option, none, some, Result, ok, err, throw_if, ◌>>=◌, ◌>>◌, ltb, leb, ◌==◌, if◌then◌else◌, length,
  get_elem?, take, drop,
}
use magna_monorepo.Base.Numbers.{ℤ, pos, negsuc, int_eq}
use magna_monorepo.Base.Radix.{of_digits}
use magna_monorepo.Base.Texts.{text_eq}
use magna_monorepo.Webauthn.Utf8.{text_decode}

pub data CborKey : Type 0 where
  number : ℤ → CborKey
  text : List ℕ → CborKey

mutual
  pub data CborValue : Type 0 where
    number : ℤ → CborValue
    text : List ℕ → CborValue
    bytes : List ℕ → CborValue
    array : Items → CborValue
    map : Entries → CborValue
    boolean : Bool → CborValue
    null : CborValue

  pub data Items : Type 0 where
    nil : Items
    cons : CborValue → Items → Items

  -- A Map, in the order of insertion.
  pub data Entries : Type 0 where
    end : Entries
    entry : CborKey → CborValue → Entries → Entries

pub data CborError : Type 0 where
  input_too_large too_deep truncated unsupported_info item_too_large : CborError
  bad_key_type duplicate_key unsupported_simple unsupported_major : CborError

-- `requireBytes`
unfoldable pub require_bytes : List ℕ → ℕ → ℕ → Result CborError (List ℕ)
require_bytes input offset n = do
  throw_if (ltb (length input) (offset + n)) truncated
  ok (take n (drop offset input))

-- An argument of `n` bytes, most significant first, and the offset behind it.
unfoldable pub read_argument : List ℕ → ℕ → ℕ → Result CborError (ℕ × ℕ)
unfolding require_bytes
read_argument input offset n = do b ← require_bytes input offset n; ok (of_digits 256 b, offset + n)

-- The `length` that the low bits of the initial byte announce, and the offset behind it.
unfoldable pub read_length : List ℕ → ℕ → ℕ → Result CborError (ℕ × ℕ)
unfolding read_argument
read_length input offset info =
    if ltb info 24
    then ok (info, offset)
    else if info == 24
    then read_argument input offset 1
    else if info == 25
    then read_argument input offset 2
    else if info == 26
    then read_argument input offset 4
    else err unsupported_info

abbrev pub key_eq : CborKey → CborKey → Bool
key_eq (CborKey.number a) (CborKey.number b) = int_eq a b
key_eq (CborKey.text a) (CborKey.text b) = text_eq a b
key_eq (CborKey.number a) (CborKey.text b) = false
key_eq (CborKey.text a) (CborKey.number b) = false

-- `map.get(key)` and `map.has(key)`
abbrev pub map_get : Entries → CborKey → Option CborValue
map_get end key = none
map_get (entry k v rest) key = if key_eq k key then some v else map_get rest key

abbrev pub map_has : Entries → CborKey → Bool
map_has end key = false
map_has (entry k v rest) key = key_eq k key || map_has rest key

-- `map.set(key, value)`: a key that is there keeps its place, and its value is overwritten.
abbrev pub map_set : Entries → CborKey → CborValue → Entries
map_set end key value = entry key value end
map_set (entry k v rest) key value =
    let others = map_set rest key value in
    if key_eq k key then entry k value rest else entry k v others

-- `arr.push(value)`
abbrev pub push : Items → CborValue → Items
push nil value = cons value nil
push (cons v rest) value = cons v (push rest value)

-- A key must be a number or a text.
abbrev pub as_key : CborValue → Result CborError CborKey
as_key (CborValue.number n) = ok (CborKey.number n)
as_key (CborValue.text s) = ok (CborKey.text s)
as_key _ = err bad_key_type

-- `case 2` and `case 3`: the bytes, and what is made of them.
unfoldable pub decode_string :
    (List ℕ → CborValue) → List ℕ → ℕ → ℕ → ℕ → Result CborError (CborValue × ℕ)
decode_string make input begin offset len = do
  b ← require_bytes input offset len
  ok (make b, offset - begin + len)

module _ (decode : ℕ → Result CborError (CborValue × ℕ)) where
  -- The loop over the items of an array; `decode` reads one value at an offset.
  unfoldable pub decode_items : ℕ → ℕ → Items → Result CborError (Items × ℕ)
  decode_items zero offset arr = ok (arr, offset)
  decode_items (suc n) offset arr = do
    (value, size) ← decode offset
    decode_items n (offset + size) (push arr value)

  -- The loop over the entries of a map.
  unfoldable pub decode_entries : ℕ → ℕ → Entries → Result CborError (Entries × ℕ)
  decode_entries zero offset m = ok (m, offset)
  decode_entries (suc n) offset m = do
    (k, k_size) ← decode offset
    key ← as_key k
    throw_if (map_has m key) duplicate_key
    (v, v_size) ← decode (offset + k_size)
    decode_entries n (offset + k_size + v_size) (map_set m key v)

  -- `case 4` and `case 5`.
  unfoldable pub decode_array : ℕ → ℕ → ℕ → Result CborError (CborValue × ℕ)
  decode_array begin offset len = do
    (arr, after) ← decode_items len offset nil
    ok (array arr, after - begin)

  unfoldable pub decode_map : ℕ → ℕ → ℕ → Result CborError (CborValue × ℕ)
  decode_map begin offset len = do
    (m, after) ← decode_entries len offset end
    ok (map m, after - begin)

  -- The `switch` on the major type, behind the initial byte and the argument.
  unfoldable pub decode_major : List ℕ → ℕ → ℕ → ℕ → ℕ → ℕ → Result CborError (CborValue × ℕ)
  decode_major input begin offset major info len =
      if major == 0
      then ok (CborValue.number (pos len), offset - begin)
      else if major == 1
      then ok (CborValue.number (negsuc len), offset - begin)
      else if major == 2
      then decode_string bytes input begin offset len
      else if major == 3
      then decode_string (λ b. CborValue.text (text_decode b)) input begin offset len
      else if major == 4
      then decode_array begin offset len
      else if major == 5
      then decode_map begin offset len
      else if major == 7
      then (if info == 20
          then ok (boolean false, offset - begin)
          else if info == 21
          then ok (boolean true, offset - begin)
          else if info == 22
          then ok (null, offset - begin)
          else err unsupported_simple)
      else err unsupported_major

  -- One value at an offset, with its size, where nested values are read by `decode`.
  unfoldable pub decode_value : List ℕ → ℕ → Result CborError (CborValue × ℕ)
  decode_value input begin = elim (get_elem? input begin) [
    | none ↦ err truncated
    | some initial ↦ do
      (len, offset) ← read_length input (begin + 1) (initial % 32)
      throw_if (ltb 1024 len) item_too_large
      decode_major input begin offset (initial / 32) (initial % 32) len
  ]

-- `decodeAt`, with the levels that are left in place of the depth.
unfoldable pub decode_at : ℕ → List ℕ → ℕ → Result CborError (CborValue × ℕ)
decode_at zero input offset = err too_deep
decode_at (suc levels) input offset = decode_value (decode_at levels input) input offset

unfoldable pub decode_cbor : List ℕ → Result CborError (CborValue × ℕ)
decode_cbor input = do throw_if (ltb 4096 (length input)) input_too_large; decode_at 33 input 0
