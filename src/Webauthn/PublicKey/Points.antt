-- ===== src/Webauthn/PublicKey/Points.antt =====
-- Every key that is extracted is a point of the curve P-256.
use magna_monorepo.Base.{
  ℕ, ◌+◌, ◌*◌, ◌/◌, ◌%◌, ◌<◌, ◌≡◌, Bool, false, ◌&&◌, not, List, Option, none, some, ok, throw_if,
  >>=-eq-ok, ltb, leb, ◌==◌, length, drop, arith, subst,
}
use magna_monorepo.Base.Numbers.{pos, negsuc}
use magna_monorepo.Base.Radix.{of_digits}
use magna_monorepo.Base.Texts.{codes}
use magna_monorepo.Webauthn.Cbor.{CborValue, CborKey, map_get, decode_cbor}
use magna_monorepo.Webauthn.PublicKey.{
  p256_p, p256_b, P256PublicKey, KeyError, lift_cbor, mod_difference, assert_p256_point, is_number,
  coordinate, map_of, bytes_of, byte_or_zero, parse_cose_internal, parse_cose_p256_public_key,
  check_trailing, key_from_auth_data, key_from_attestation_object,
}

-- The remainder of a difference, however the signs stand.
mod_difference_lem :
    (a b : ℕ) → (mod_difference a b < p256_p) × ((mod_difference a b + b) % p256_p ≡ a % p256_p)
unfolding mod_difference
mod_difference_lem a b = ground arith

-- Two coordinates of 32 bytes below the prime, with y² = x³ - 3x + b modulo the prime.
pub record IsOnCurve (key : P256PublicKey) : Type 0 where
  pub x_len : length key.x ≡ 32
  pub y_len : length key.y ≡ 32
  pub x_range : of_digits 256 key.x < p256_p
  pub y_range : of_digits 256 key.y < p256_p
  pub curve :
      (of_digits 256 key.y * of_digits 256 key.y + 3 * of_digits 256 key.x) % p256_p
      ≡ (of_digits 256 key.x * of_digits 256 key.x * of_digits 256 key.x + p256_b) % p256_p

curve_equation :
    (square cube_b three_x : ℕ)
    → square % p256_p ≡ mod_difference cube_b three_x
    → (square + three_x) % p256_p ≡ cube_b % p256_p
curve_equation square cube_b three_x e =
    omega (arith, (mod_difference_lem cube_b three_x).0, (mod_difference_lem cube_b three_x).1)

point_checks :
    (x y : List ℕ)
    → assert_p256_point x y ≡ ok tt
    → (of_digits 256 x < p256_p)
      × (of_digits 256 y < p256_p)
      × (of_digits 256 y * of_digits 256 y % p256_p
          ≡ mod_difference
              (of_digits 256 x * of_digits 256 x * of_digits 256 x + p256_b)
              (3 * of_digits 256 x))
unfolding assert_p256_point
point_checks x y e = (ground arith, ground arith, ground arith)

assert_p256_point_sound :
    (x y : List ℕ)
    → length x ≡ 32
    → length y ≡ 32
    → assert_p256_point x y ≡ ok tt
    → IsOnCurve (record { x = x; y = y })
assert_p256_point_sound x y x_len y_len e =
    let vx : ℕ = of_digits 256 x in
    let vy : ℕ = of_digits 256 y in
    let (small_x, small_y, same) = point_checks x y e in
    record {
      x_len = x_len;
      y_len = y_len;
      x_range = small_x;
      y_range = small_y;
      curve = curve_equation (vy * vy) (vx * vx * vx + p256_b) (3 * vx) same;
    }

coordinate-eq-ok :
    (o : Option CborValue) (e : KeyError) (b : List ℕ) → coordinate o e ≡ ok b → length b ≡ 32
coordinate-eq-ok (some (CborValue.bytes c)) e b h =
    let same : c ≡ b = ground arith in
    subst (λ t. length t ≡ 32) same (let len : length c ≡ 32 = ground arith in len)
coordinate-eq-ok none e b h = cc
coordinate-eq-ok (some _) e b h = cc

parse_cose_internal-IsOnCurve :
    (input : List ℕ) (trailing : Bool) (key : P256PublicKey) (n : ℕ)
    → parse_cose_internal input trailing ≡ ok (key, n)
    → IsOnCurve key
unfolding parse_cose_internal
parse_cose_internal-IsOnCurve input trailing key n e =
    let ((value, size), _, e₁) = >>=-eq-ok (lift_cbor (decode_cbor input)) _ e in
    let (_, _, e₂) =
      >>=-eq-ok (throw_if (not trailing && not (size == length input)) KeyError.cose_trailing) _
        e₁ in
    let (m, _, e₃) = >>=-eq-ok (map_of value KeyError.cose_not_map) _ e₂ in
    let (_, _, e₄) =
      >>=-eq-ok
        (throw_if (not (is_number (map_get m (CborKey.number (pos 1))) (pos 2))) KeyError.bad_kty) _
        e₃ in
    let (_, _, e₅) =
      >>=-eq-ok
        (throw_if (not (is_number (map_get m (CborKey.number (pos 3))) (negsuc 6)))
          KeyError.bad_alg)
        _ e₄ in
    let (_, _, e₆) =
      >>=-eq-ok
        (throw_if (not (is_number (map_get m (CborKey.number (negsuc 0))) (pos 1)))
          KeyError.bad_crv)
        _ e₅ in
    let (x, x_is, e₇) =
      >>=-eq-ok (coordinate (map_get m (CborKey.number (negsuc 1))) KeyError.bad_x) _ e₆ in
    let (y, y_is, e₈) =
      >>=-eq-ok (coordinate (map_get m (CborKey.number (negsuc 2))) KeyError.bad_y) _ e₇ in
    let (_, point, e₉) = >>=-eq-ok (assert_p256_point x y) _ e₈ in
    let same : record { x = x; y = y } ≡ key = ground arith in
    subst IsOnCurve same (
      assert_p256_point_sound x y
        (coordinate-eq-ok (map_get m (CborKey.number (negsuc 1))) KeyError.bad_x x x_is)
        (coordinate-eq-ok (map_get m (CborKey.number (negsuc 2))) KeyError.bad_y y y_is) point)

-- A key that is read from a COSE map is a point of the curve.
pub parse_cose_p256_public_key-IsOnCurve :
    (input : List ℕ) (key : P256PublicKey)
    → parse_cose_p256_public_key input ≡ ok key
    → IsOnCurve key
unfolding parse_cose_p256_public_key
parse_cose_p256_public_key-IsOnCurve input key e =
    let ((k, n), parsed, rest) = >>=-eq-ok (parse_cose_internal input false) _ e in
    let same : k ≡ key = ground arith in
    subst IsOnCurve same (parse_cose_internal-IsOnCurve input false k n parsed)

key_from_auth_data-IsOnCurve :
    (auth_data : List ℕ) (key : P256PublicKey)
    → key_from_auth_data auth_data ≡ ok key
    → IsOnCurve key
unfolding key_from_auth_data
key_from_auth_data-IsOnCurve auth_data key e =
    let cose_start : ℕ = 55 + (byte_or_zero auth_data 53 * 256 + byte_or_zero auth_data 54) in
    let has_extensions : Bool = not (byte_or_zero auth_data 32 / 128 % 2 == 0) in
    let (_, _, e₁) =
      >>=-eq-ok (throw_if (ltb (length auth_data) 55) KeyError.auth_data_short) _ e in
    let (_, _, e₂) =
      >>=-eq-ok (throw_if (byte_or_zero auth_data 32 / 64 % 2 == 0) KeyError.no_attested_data) _
        e₁ in
    let (_, _, e₃) =
      >>=-eq-ok (throw_if (leb (length auth_data) cose_start) KeyError.no_cose_key) _ e₂ in
    let ((k, n), parsed, e₄) =
      >>=-eq-ok (parse_cose_internal (drop cose_start auth_data) has_extensions) _ e₃ in
    let (_, _, e₅) =
      >>=-eq-ok (check_trailing (drop (cose_start + n) auth_data) has_extensions) _ e₄ in
    let same : k ≡ key = ground arith in
    subst IsOnCurve same
      (parse_cose_internal-IsOnCurve (drop cose_start auth_data) has_extensions k n parsed)

-- A key that is read from an attestation object is a point of the curve.
pub key_from_attestation_object-IsOnCurve :
    (input : List ℕ) (key : P256PublicKey)
    → key_from_attestation_object input ≡ ok key
    → IsOnCurve key
unfolding key_from_attestation_object
key_from_attestation_object-IsOnCurve input key e =
    let ((value, n), _, e₁) = >>=-eq-ok (lift_cbor (decode_cbor input)) _ e in
    let (_, _, e₂) = >>=-eq-ok (throw_if (not (n == length input)) KeyError.object_trailing) _ e₁ in
    let (m, _, e₃) = >>=-eq-ok (map_of value KeyError.object_not_map) _ e₂ in
    let (auth_data, _, e₄) =
      >>=-eq-ok (bytes_of (map_get m (CborKey.text (codes "authData"))) KeyError.no_auth_data) _
        e₃ in
    key_from_auth_data-IsOnCurve auth_data key e₄
