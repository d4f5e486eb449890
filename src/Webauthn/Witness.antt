-- ===== src/Webauthn/Witness.antt =====
-- packages/magna-wallet/src/webauthn/witness.ts: the field layout of an auth witness, and the place
-- of the origin in the client data.
pub mod Layout
pub mod Origin
use magna_monorepo.Base.{
  ℕ, zero, suc, ◌+◌, ◌-◌, ◌*◌, Bool, true, false, ◌&&◌, ◌||◌, not, List, [], ◌∷◌, ◌++◌, Option,
  none, some, Result, ok, err, throw_if, ◌>>=◌, ◌>>◌, ltb, leb, ◌==◌, if◌then◌else◌, length,
  get_elem?, drop, replicate,
}
use magna_monorepo.Base.Numbers.{ℤ, pos, negsuc}
use magna_monorepo.Base.Texts.{codes}
use magna_monorepo.Core.Values.{Number, integer, not_integer}

abbrev pub webauthn_ad_max : ℕ
webauthn_ad_max = 64

abbrev pub webauthn_cdj_max : ℕ
webauthn_cdj_max = 256

abbrev pub webauthn_witness_len : ℕ
webauthn_witness_len = 64 + 1 + webauthn_ad_max + 1 + webauthn_cdj_max + 1

pub data WitnessError : Type 0 where
  signature_length auth_data_too_long client_data_too_long bad_origin_index : WitnessError
  no_origin ambiguous_origin : WitnessError

pub record WitnessInput : Type 0 where
  pub signature_rs : List ℕ
  pub authenticator_data : List ℕ
  pub client_data_json : List ℕ
  pub origin_index : Number

-- `fields[i] = v`
unfoldable pub set : List ℕ → ℕ → ℕ → List ℕ
set [] i v = []
set (x ∷ xs) zero v = v ∷ xs
set (x ∷ xs) (suc i) v = x ∷ set xs i v

-- `for (i …) fields[base + i] = BigInt(bytes[i])`
unfoldable pub write_bytes : List ℕ → ℕ → List ℕ → List ℕ
unfolding set
write_bytes fields base [] = fields
write_bytes fields base (b ∷ bytes) = write_bytes (set fields base b) (base + 1) bytes

-- `Number.isInteger(n) && n >= 0`, and the integer.
unfoldable pub natural_index : Number → Result WitnessError ℕ
natural_index (integer (pos n)) = ok n
natural_index (integer (negsuc n)) = err bad_origin_index
natural_index not_integer = err bad_origin_index

-- The array is filled once the checks have passed.
unfoldable pub fill_fields : List ℕ → List ℕ → List ℕ → ℕ → List ℕ
unfolding write_bytes
fill_fields signature ad cdj origin =
    let fields = write_bytes (replicate webauthn_witness_len 0) 0 signature in
    let fields = set fields 64 (length ad) in
    let fields = write_bytes fields 65 ad in
    let fields = set fields 129 (length cdj) in
    let fields = write_bytes fields 130 cdj in set fields 386 origin

unfoldable pub build_webauthn_witness_fields : WitnessInput → Result WitnessError (List ℕ)
build_webauthn_witness_fields input = do
  throw_if (not (length input.signature_rs == 64)) signature_length
  throw_if (ltb webauthn_ad_max (length input.authenticator_data)) auth_data_too_long
  throw_if (ltb webauthn_cdj_max (length input.client_data_json)) client_data_too_long
  origin ← natural_index input.origin_index
  ok (fill_fields input.signature_rs input.authenticator_data input.client_data_json origin)

-- The inner loop of `indexOfBytes`: the needle stands at the front.
unfoldable pub matches_at : List ℕ → List ℕ → Bool
matches_at haystack [] = true
matches_at [] (n ∷ needle) = false
matches_at (h ∷ haystack) (n ∷ needle) = h == n && matches_at haystack needle

-- The outer loop: `rounds` is how many values of `i` are left. `none` stands for -1.
unfoldable pub index_loop : ℕ → List ℕ → List ℕ → ℕ → Option ℕ
unfolding matches_at
index_loop zero haystack needle i = none
index_loop (suc rounds) haystack needle i =
    let next = index_loop rounds haystack needle (i + 1) in
    if matches_at (drop i haystack) needle then some i else next

-- `i` runs from `from` to `haystack.length - needle.length`, if that is not negative.
unfoldable pub index_of_bytes : List ℕ → List ℕ → ℕ → Option ℕ
unfolding index_loop
index_of_bytes haystack needle from =
    index_loop (length haystack + 1 - length needle - from) haystack needle from

abbrev pub origin_needle : List ℕ
origin_needle = codes "\"origin\":\""

unfoldable pub find_origin_index : List ℕ → Result WitnessError ℕ
find_origin_index client_data_json = elim (index_of_bytes client_data_json origin_needle 0) [
  | none ↦ err no_origin
  | some first ↦ elim (index_of_bytes client_data_json origin_needle (first + 1)) [
    | none ↦ ok first
    | some again ↦ err ambiguous_origin
  ]
]
