-- ===== src/ChainState/Notes.antt =====
-- credential-chain-state.ts: the values that a hinted note holds, and how a field of one is read.
use magna_monorepo.Base.{
  ℕ, suc, Bool, false, ◌||◌, not, List, Option, none, some, Result, ok, err, throw_if, ◌>>=◌, leb,
  if◌then◌else◌,
}
use magna_monorepo.Base.Numbers.{ℤ, pos, negsuc, int_eq}
use magna_monorepo.Base.Texts.{codes, text_eq}
use magna_monorepo.Core.Values.{Number, integer, not_integer}
use magna_monorepo.Core.BigInts.{parse_bigint}

-- The kinds of error; the labels in the messages are left out.
pub data ChainStateError : Type 0 where
  not_an_object not_field_compatible syntax_error not_selected not_hashable bad_address :
      ChainStateError
  block_unavailable missing_root_metadata : ChainStateError

-- What an unknown value can be. An object has what its `toBigInt` returns, if that is a function, and
-- its properties. `other` is everything else: undefined, null, a boolean, an array, a symbol.
mutual
  pub data NoteValue : Type 0 where
    other : NoteValue
    bigint : ℤ → NoteValue
    number : Number → NoteValue
    string : List ℕ → NoteValue
    object : Option ℤ → Fields → NoteValue

  pub data Fields : Type 0 where
    no_more : Fields
    field : List ℕ → NoteValue → Fields → Fields

abbrev pub read_field : List ℕ → Fields → NoteValue
read_field key no_more = other
read_field key (field k v rest) = if text_eq k key then v else read_field key rest

-- `key in fields`
unfoldable pub has_field : List ℕ → Fields → Bool
has_field key no_more = false
has_field key (field k v rest) = text_eq k key || has_field key rest

unfoldable pub as_record : NoteValue → Result ChainStateError Fields
as_record (object _ fields) = ok fields
as_record _ = err not_an_object

unfoldable pub note_record : NoteValue → Result ChainStateError Fields
unfolding as_record
note_record hinted = do fields ← as_record hinted; as_record (read_field (codes "note") fields)

abbrev pub or_throw {ℓ} : {A : Type ℓ} → ChainStateError → Option A → Result ChainStateError A
or_throw e none = err e
or_throw e (some a) = ok a

-- `Number.isSafeInteger(n)`, for an integer.
unfoldable pub is_safe_integer : ℤ → Bool
is_safe_integer (pos n) = leb n 9007199254740991
is_safe_integer (negsuc n) = leb (suc n) 9007199254740991

-- The value of a field as a `bigint`; the second function is for the property `value` of an object.
unfoldable mutual
  pub to_bigint : NoteValue → Result ChainStateError ℤ
  to_bigint other = err not_field_compatible
  to_bigint (bigint n) = ok n
  to_bigint (number not_integer) = err not_field_compatible
  to_bigint (number (integer n)) = if is_safe_integer n then ok n else err not_field_compatible
  to_bigint (string text) = or_throw syntax_error (parse_bigint text)
  to_bigint (object (some n) fields) = ok n
  to_bigint (object none fields) = value_to_bigint fields

  pub value_to_bigint : Fields → Result ChainStateError ℤ
  value_to_bigint no_more = err not_field_compatible
  value_to_bigint (field k v rest) =
      let here = to_bigint v in
      let later = value_to_bigint rest in if text_eq k (codes "value") then here else later

unfoldable pub field_value : Fields → List ℕ → Result ChainStateError ℤ
unfolding to_bigint
field_value note key = to_bigint (read_field key note)

unfoldable pub assert_same : ℤ → ℤ → Result ChainStateError (Unit {0})
assert_same actual expected = throw_if (not (int_eq actual expected)) not_selected

-- `assertSame(fieldValue(note, key, label), expected, …)`
unfoldable pub assert_field : Fields → List ℕ → ℤ → Result ChainStateError (Unit {0})
unfolding field_value assert_same
assert_field note key expected = do actual ← field_value note key; assert_same actual expected

-- `BigInt(text)`
abbrev pub big_int : List ℕ → Result ChainStateError ℤ
big_int text = or_throw syntax_error (parse_bigint text)
