-- ===== src/Webauthn/Examples.antt =====
-- The theorems on WebAuthn at small signatures, the generator of P-256 and a short client data.
use magna_monorepo.Base.{
  ℕ, ◌<◌, ◌≤◌, ◌≡◌, ◌↔◌, refl, List, [], ◌∷◌, ◌++◌, ok, length, replicate, arith,
}
use magna_monorepo.Base.Numbers.{pos}
use magna_monorepo.Base.Texts.{codes}
use magna_monorepo.Core.Values.{integer}
use magna_monorepo.Webauthn.Der.{
  decode_ecdsa_der_signature, read_integers, check_integer, read_integer,
}
use magna_monorepo.Webauthn.Der.Encoding.{encode_signature, bytes_32}
use magna_monorepo.Webauthn.Der.Integers.{InRange}
use magna_monorepo.Webauthn.Der.Strict.{decode_ecdsa_der_signature_strict}
use magna_monorepo.Webauthn.Der.RoundTrip.{decode-encode_signature}
use magna_monorepo.Webauthn.Cbor.{
  CborValue, CborKey, Entries, decode_cbor, decode_at, decode_value, decode_major, read_length,
  decode_map, decode_entries, decode_string,
}
use magna_monorepo.Webauthn.Utf8.{text_decode}
use magna_monorepo.Webauthn.Cbor.Bounds.{decode_cbor-le}
use magna_monorepo.Webauthn.Cbor.Keys.{IsWhole, decode_at-size}
use magna_monorepo.Webauthn.PublicKey.{
  P256PublicKey, key_from_attestation_object, key_from_auth_data, parse_cose_internal,
  assert_p256_point, mod_difference, check_trailing,
}
use magna_monorepo.Webauthn.PublicKey.Points.{IsOnCurve, key_from_attestation_object-IsOnCurve}
use magna_monorepo.Webauthn.Witness.{
  WitnessInput, build_webauthn_witness_fields, find_origin_index, origin_needle, index_of_bytes,
}
use magna_monorepo.Webauthn.Witness.Layout.{layout, build_webauthn_witness_fields-layout}
use magna_monorepo.Webauthn.Witness.Origin.{OccursAt, find_origin_index-only}

-- The encoding of 1 and 2.
abbrev small_der : List ℕ
small_der = 48 ∷ 6 ∷ 2 ∷ 1 ∷ 1 ∷ 2 ∷ 1 ∷ 2 ∷ []

small_der-decoded :
    decode_ecdsa_der_signature small_der
    ≡ ok (replicate 31 0 ++ (1 ∷ []), replicate 31 0 ++ (2 ∷ []))
unfolding decode_ecdsa_der_signature read_integers read_integer check_integer
small_der-decoded = refl

decode_ecdsa_der_signature_strict_example :
    (m : ℕ) × (n : ℕ) × (small_der ≡ encode_signature m n)
    × InRange m
    × InRange n
    × (replicate 31 0 ++ (1 ∷ []) ≡ bytes_32 m)
    × (replicate 31 0 ++ (2 ∷ []) ≡ bytes_32 n)
decode_ecdsa_der_signature_strict_example =
    decode_ecdsa_der_signature_strict small_der (replicate 31 0 ++ (1 ∷ []))
      (replicate 31 0 ++ (2 ∷ []))
      (
        omega arith,
        (
          omega arith,
          (
            omega arith,
            (omega arith, (omega arith, (omega arith, (omega arith, (omega arith, tt))))),
          ),
        ),
      )
      small_der-decoded

decode-encode_signature_example :
    decode_ecdsa_der_signature (encode_signature 1 200) ≡ ok (bytes_32 1, bytes_32 200)
decode-encode_signature_example =
    decode-encode_signature 1 200 (omega arith, omega arith) (omega arith, omega arith)

abbrev attestation_object : List ℕ
attestation_object =
    161 ∷ 104 ∷ 97 ∷ 117 ∷ 116 ∷ 104 ∷ 68 ∷ 97 ∷ 116 ∷ 97 ∷ 88 ∷ 132 ∷ 0 ∷ 0 ∷ 0 ∷ 0 ∷ 0 ∷ 0 ∷ 0 ∷ 0
    ∷ 0 ∷ 0 ∷ 0 ∷ 0 ∷ 0 ∷ 0 ∷ 0 ∷ 0 ∷ 0 ∷ 0 ∷ 0 ∷ 0 ∷ 0 ∷ 0 ∷ 0 ∷ 0 ∷ 0 ∷ 0 ∷ 0 ∷ 0 ∷ 0 ∷ 0 ∷ 0 ∷ 0
    ∷ 65 ∷ 0 ∷ 0 ∷ 0 ∷ 0 ∷ 0 ∷ 0 ∷ 0 ∷ 0 ∷ 0 ∷ 0 ∷ 0 ∷ 0 ∷ 0 ∷ 0 ∷ 0 ∷ 0 ∷ 0 ∷ 0 ∷ 0 ∷ 0 ∷ 0 ∷ 0
    ∷ 165 ∷ 1 ∷ 2 ∷ 3 ∷ 38 ∷ 32 ∷ 1 ∷ 33 ∷ 88 ∷ 32 ∷ 107 ∷ 23 ∷ 209 ∷ 242 ∷ 225 ∷ 44 ∷ 66 ∷ 71 ∷ 248
    ∷ 188 ∷ 230 ∷ 229 ∷ 99 ∷ 164 ∷ 64 ∷ 242 ∷ 119 ∷ 3 ∷ 125 ∷ 129 ∷ 45 ∷ 235 ∷ 51 ∷ 160 ∷ 244 ∷ 161
    ∷ 57 ∷ 69 ∷ 216 ∷ 152 ∷ 194 ∷ 150 ∷ 34 ∷ 88 ∷ 32 ∷ 79 ∷ 227 ∷ 66 ∷ 226 ∷ 254 ∷ 26 ∷ 127 ∷ 155
    ∷ 142 ∷ 231 ∷ 235 ∷ 74 ∷ 124 ∷ 15 ∷ 158 ∷ 22 ∷ 43 ∷ 206 ∷ 51 ∷ 87 ∷ 107 ∷ 49 ∷ 94 ∷ 206 ∷ 203
    ∷ 182 ∷ 64 ∷ 104 ∷ 55 ∷ 191 ∷ 81 ∷ 245 ∷ []

abbrev generator : P256PublicKey
generator = record {
  x =
      107 ∷ 23 ∷ 209 ∷ 242 ∷ 225 ∷ 44 ∷ 66 ∷ 71 ∷ 248 ∷ 188 ∷ 230 ∷ 229 ∷ 99 ∷ 164 ∷ 64 ∷ 242 ∷ 119
      ∷ 3 ∷ 125 ∷ 129 ∷ 45 ∷ 235 ∷ 51 ∷ 160 ∷ 244 ∷ 161 ∷ 57 ∷ 69 ∷ 216 ∷ 152 ∷ 194 ∷ 150 ∷ [];
  y =
      79 ∷ 227 ∷ 66 ∷ 226 ∷ 254 ∷ 26 ∷ 127 ∷ 155 ∷ 142 ∷ 231 ∷ 235 ∷ 74 ∷ 124 ∷ 15 ∷ 158 ∷ 22 ∷ 43
      ∷ 206 ∷ 51 ∷ 87 ∷ 107 ∷ 49 ∷ 94 ∷ 206 ∷ 203 ∷ 182 ∷ 64 ∷ 104 ∷ 55 ∷ 191 ∷ 81 ∷ 245 ∷ [];
}

generator-read : key_from_attestation_object attestation_object ≡ ok generator
unfolding key_from_attestation_object decode_cbor decode_at decode_value read_length decode_major
    decode_map decode_entries decode_string text_decode key_from_auth_data parse_cose_internal
    assert_p256_point mod_difference check_trailing
generator-read = refl

key_from_attestation_object-IsOnCurve_example : IsOnCurve generator
key_from_attestation_object-IsOnCurve_example =
    key_from_attestation_object-IsOnCurve attestation_object generator generator-read

-- A map from 1 to 2, and a byte behind it.
abbrev small_map : Entries
small_map = Entries.entry (CborKey.number (pos 1)) (CborValue.number (pos 2)) Entries.end

small_map-decoded : decode_cbor (161 ∷ 1 ∷ 2 ∷ 0 ∷ []) ≡ ok (CborValue.map small_map, 3)
unfolding decode_cbor decode_at decode_value read_length decode_major decode_map decode_entries
small_map-decoded = refl

decode_cbor-le_example : (0 < 3) × (3 ≤ length {A = ℕ} (161 ∷ 1 ∷ 2 ∷ 0 ∷ []))
decode_cbor-le_example =
    decode_cbor-le (161 ∷ 1 ∷ 2 ∷ 0 ∷ []) (CborValue.map small_map) 3 small_map-decoded

small_map-at : decode_at 33 (161 ∷ 1 ∷ 2 ∷ 0 ∷ []) 0 ≡ ok (CborValue.map small_map, 3)
unfolding decode_at decode_value read_length decode_major decode_map decode_entries
small_map-at = refl

decode_at-size_example : IsWhole (161 ∷ 1 ∷ 2 ∷ 0 ∷ []) 0 small_map
decode_at-size_example = decode_at-size 33 (161 ∷ 1 ∷ 2 ∷ 0 ∷ []) 0 small_map 3 small_map-at

abbrev witness_input : WitnessInput
witness_input = record {
  signature_rs = replicate 64 1;
  authenticator_data = 5 ∷ 6 ∷ [];
  client_data_json = 7 ∷ [];
  origin_index = integer (pos 3);
}

build_webauthn_witness_fields-layout_example :
    (build_webauthn_witness_fields witness_input
      ≡ ok (layout (replicate 64 1) (5 ∷ 6 ∷ []) (7 ∷ []) 3))
    × (length (layout (replicate 64 1) (5 ∷ 6 ∷ []) (7 ∷ []) 3) ≡ 387)
build_webauthn_witness_fields-layout_example =
    build_webauthn_witness_fields-layout witness_input 3 refl (omega arith) (omega arith) refl

abbrev client_data : List ℕ
client_data = codes "{\"origin\":\"https://a\"}"

client_data-found : find_origin_index client_data ≡ ok 1
unfolding find_origin_index index_of_bytes
client_data-found = refl

abbrev four : ℕ
four = 4

find_origin_index-only_example : OccursAt client_data origin_needle four ↔ (four ≡ 1)
find_origin_index-only_example = find_origin_index-only client_data 1 four client_data-found
