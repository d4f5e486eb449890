-- ===== src/Core/SessionAssertion/Binding.antt =====
-- What the field elements bind: two logins with the same elements are the same login.
use Prim.Native.String.{String}
use magna_monorepo.Base.{
  ℕ, ◌*◌, ◌≤◌, ◌<◌, ◌≡◌, refl, sym, ap, ◌∙◌, true, List, [], ◌∷◌, map, Result, ok, err, >>=-eq-ok,
  length, all, All, length-map, arith,
}
use mathlib.Core.Path.{ap₂}
use magna_monorepo.Base.Numbers.{ℤ, pos, negsuc}
use magna_monorepo.Base.Radix.{of_digits, of_digits-injective}
use magna_monorepo.Core.Bytes.{strip_prefix, hex_value, digit_char}
use magna_monorepo.Core.Values.{Number, integer, not_integer}
use magna_monorepo.Core.Policy.{
  Constraint, Policy, PolicyError, normalize_policy, IsPolicy, IsConstraint,
}
use magna_monorepo.Core.Policy.Normal.{normalize_policy-IsNormalOf, normalize_policy_idempotent}
use magna_monorepo.Core.SessionAssertion.{
  session_assertion_version, noir_field_modulus, max_safe_integer, is_lower_hex, hex_field,
  SessionInput, positive_safe, index_u8, field_value, constraint_fields, lift_policy,
  session_authorization_fields,
}

-- The digit that a lower-case character stands for, and back.
hex_value_lower :
    (c : ℕ) → is_lower_hex c ≡ true → (hex_value c < 16) × (digit_char (hex_value c) ≡ c)
unfolding is_lower_hex hex_value digit_char
hex_value_lower c h = (ground arith, ground arith)

map-hex_value-All : (s : List ℕ) → all is_lower_hex s ≡ true → All (λ d. d < 16) (map hex_value s)
map-hex_value-All [] h = tt
map-hex_value-All (c ∷ s) h =
    ((hex_value_lower c (ground arith)).0, map-hex_value-All s (ground arith))

map-digit_char-hex_value :
    (s : List ℕ) → all is_lower_hex s ≡ true → map digit_char (map hex_value s) ≡ s
map-digit_char-hex_value [] h = refl
map-digit_char-hex_value (c ∷ s) h =
    cc ((hex_value_lower c (ground arith)).1, map-digit_char-hex_value s (ground arith))

-- What a successful `hexField` has established.
record IsHexField (value : List ℕ) (byte_length field : ℕ) : Type 0 where
  len : length (strip_prefix value) ≡ byte_length * 2
  digits : all is_lower_hex (strip_prefix value) ≡ true
  read : of_digits 16 (map hex_value (strip_prefix value)) ≡ field
  in_field : field < noir_field_modulus

hex_field-IsHexField :
    (value : List ℕ) (label : String) (n f : ℕ)
    → hex_field value label n ≡ ok f
    → IsHexField value n f
unfolding hex_field
hex_field-IsHexField value label n f e = record {
  len = ground arith;
  digits = ground arith;
  read = ground arith;
  in_field = ground arith;
}

hex_field-injective :
    (v w : List ℕ) (n f : ℕ) → IsHexField v n f → IsHexField w n f → strip_prefix v ≡ strip_prefix w
hex_field-injective v w n f a b =
    let same_digits : map hex_value (strip_prefix v) ≡ map hex_value (strip_prefix w) =
      of_digits-injective 16 _ _
        (omega (
          arith,
          length-map (strip_prefix v) hex_value,
          length-map (strip_prefix w) hex_value,
          a.len,
          b.len,
        ))
        (map-hex_value-All _ a.digits) (map-hex_value-All _ b.digits) (a.read ∙ sym b.read) in
    sym (map-digit_char-hex_value _ a.digits)
    ∙ ap (map digit_char) same_digits
    ∙ map-digit_char-hex_value _ b.digits

field_value-pos : (z : ℤ) (n : ℕ) → field_value z ≡ ok n → (z ≡ pos n) × (n < noir_field_modulus)
unfolding field_value
field_value-pos (pos m) n e = ground arith
field_value-pos (negsuc m) n e = cc

constraint_fields-cons :
    (c : Constraint) (cs : List Constraint) (fs : List ℕ)
    → constraint_fields (c ∷ cs) ≡ ok fs
    → (v : ℕ) × (rest : List ℕ) × (c.value ≡ pos v)
      × (v < noir_field_modulus)
      × (constraint_fields cs ≡ ok rest)
      × (c.claim_id ∷ c.op ∷ v ∷ rest ≡ fs)
unfolding constraint_fields
constraint_fields-cons c cs fs e =
    let (v, value, more) = >>=-eq-ok (field_value c.value) _ e in
    let (rest, others, same) = >>=-eq-ok (constraint_fields cs) _ more in
    let (is_pos, small) = field_value-pos c.value v value in (v, rest, is_pos, small, others, cc)

constraint_fields-nil : (fs : List ℕ) → constraint_fields [] ≡ ok fs → [] ≡ fs
unfolding constraint_fields
constraint_fields-nil fs e = cc

constraint_fields-injective :
    (cs ds : List Constraint) (fs : List ℕ)
    → constraint_fields cs ≡ ok fs
    → constraint_fields ds ≡ ok fs
    → cs ≡ ds
constraint_fields-injective [] [] fs e g = refl
constraint_fields-injective [] (d ∷ ds) fs e g =
    let (v, rest, _, _, _, same) = constraint_fields-cons d ds fs g in
    absurd (cc (same, constraint_fields-nil fs e))
constraint_fields-injective (c ∷ cs) [] fs e g =
    let (v, rest, _, _, _, same) = constraint_fields-cons c cs fs e in
    absurd (cc (same, constraint_fields-nil fs g))
constraint_fields-injective (c ∷ cs) (d ∷ ds) fs e g =
    let (v, rest, value, _, others, same) = constraint_fields-cons c cs fs e in
    let (v', rest', value', _, others', same') = constraint_fields-cons d ds fs g in
    let rests : rest ≡ rest' = cc in
    let claims : c.claim_id ≡ d.claim_id = cc in
    let ops : c.op ≡ d.op = cc in
    let values : c.value ≡ d.value = cc in
    let first : c ≡ d = λ i. record { claim_id = claims i; op = ops i; value = values i } in
    ap₂ (λ x xs. x ∷ xs) first
      (constraint_fields-injective cs ds rest others (others' ∙ ap ok (sym rests)))

constraint_fields-All :
    (cs : List Constraint) (fs : List ℕ)
    → All IsConstraint cs
    → constraint_fields cs ≡ ok fs
    → All (λ f. f < noir_field_modulus) fs × (length fs ≡ 3 * length cs)
constraint_fields-All [] fs h e = rw (← constraint_fields-nil fs e) (tt, refl)
constraint_fields-All (c ∷ cs) fs (p, h) e =
    let (v, rest, value, small, others, same) = constraint_fields-cons c cs fs e in
    let (fits, len) = constraint_fields-All cs rest h others in
    let claim : c.claim_id ≤ 4 = p.claim_id in
    let op : c.op ≤ 4 = p.op in
    rw (← same) ((omega arith, (omega arith, (small, fits))), omega (arith, len))

-- Everything that a run which returns has established of its input.
record Parts (input : SessionInput) (fs : List ℕ) : Type 0 where
  expires_at : ℕ
  index : ℕ
  policy : Policy
  gateway : ℕ
  request_id : ℕ
  challenge : ℕ
  constraints : List ℕ
  expires_at_is : input.expires_at ≡ integer (pos expires_at)
  expires_at_safe : (0 < expires_at) × (expires_at ≤ max_safe_integer)
  index_is : input.requirement_index ≡ integer (pos index)
  index_u8 : index ≤ 255
  normal : normalize_policy input.policy ≡ ok policy
  gateway_is : IsHexField input.consumer_gateway_address 32 gateway
  request_is : IsHexField input.request_id 16 request_id
  challenge_is : IsHexField input.session_challenge 32 challenge
  constraints_are : constraint_fields policy.constraints ≡ ok constraints
  fields_are :
      session_assertion_version ∷ gateway ∷ request_id ∷ challenge ∷ expires_at ∷ index
        ∷ policy.credential_type ∷ constraints
      ≡ fs

positive_safe-eq-ok :
    (n : Number) (k : ℕ)
    → positive_safe n ≡ ok k
    → (n ≡ integer (pos k)) × ((0 < k) × (k ≤ max_safe_integer))
unfolding positive_safe
positive_safe-eq-ok (integer (pos m)) k e = (ground arith, (ground arith, ground arith))
positive_safe-eq-ok (integer (negsuc m)) k e = cc
positive_safe-eq-ok not_integer k e = cc

index_u8-eq-ok : (n : Number) (k : ℕ) → index_u8 n ≡ ok k → (n ≡ integer (pos k)) × (k ≤ 255)
unfolding index_u8
index_u8-eq-ok (integer (pos m)) k e = (ground arith, ground arith)
index_u8-eq-ok (integer (negsuc m)) k e = cc
index_u8-eq-ok not_integer k e = cc

lift_policy-eq-ok : (r : Result PolicyError Policy) (p : Policy) → lift_policy r ≡ ok p → r ≡ ok p
lift_policy-eq-ok (ok q) p e = cc
lift_policy-eq-ok (err x) p e = cc

parts :
    (input : SessionInput) (fs : List ℕ)
    → session_authorization_fields input ≡ ok fs
    → Parts input fs
unfolding session_authorization_fields
parts input fs e =
    let (t, et, e₁) = >>=-eq-ok (positive_safe input.expires_at) _ e in
    let (i, ei, e₂) = >>=-eq-ok (index_u8 input.requirement_index) _ e₁ in
    let (p, ep, e₃) = >>=-eq-ok (lift_policy (normalize_policy input.policy)) _ e₂ in
    let (g, eg, e₄) =
      >>=-eq-ok (hex_field input.consumer_gateway_address "consumerGatewayAddress" 32) _ e₃ in
    let (r, er, e₅) = >>=-eq-ok (hex_field input.request_id "requestId" 16) _ e₄ in
    let (c, ec, e₆) = >>=-eq-ok (hex_field input.session_challenge "sessionChallenge" 32) _ e₅ in
    let (l, el, e₇) = >>=-eq-ok (constraint_fields p.constraints) _ e₆ in
    let (t_is, t_safe) = positive_safe-eq-ok input.expires_at t et in
    let (i_is, i_u8) = index_u8-eq-ok input.requirement_index i ei in
    record {
      expires_at = t;
      index = i;
      policy = p;
      gateway = g;
      request_id = r;
      challenge = c;
      constraints = l;
      expires_at_is = t_is;
      expires_at_safe = t_safe;
      index_is = i_is;
      index_u8 = i_u8;
      normal = lift_policy-eq-ok _ p ep;
      gateway_is = hex_field-IsHexField _ _ 32 g eg;
      request_is = hex_field-IsHexField _ _ 16 r er;
      challenge_is = hex_field-IsHexField _ _ 32 c ec;
      constraints_are = el;
      fields_are = cc;
    }

-- The elements of a well-typed login: 31 of them, each below the field's modulus.
pub session_authorization_fields-All :
    (input : SessionInput) (fs : List ℕ)
    → IsPolicy input.policy
    → session_authorization_fields input ≡ ok fs
    → (length fs ≡ 31) × All (λ f. f < noir_field_modulus) fs
session_authorization_fields-All input fs typed e =
    let ps = parts input fs e in
    let normal = normalize_policy-IsNormalOf input.policy ps.policy ps.normal in
    let typed' = (normalize_policy_idempotent input.policy ps.policy ps.normal).1 typed in
    let (small, len) =
      constraint_fields-All ps.policy.constraints ps.constraints typed'.constraints
        ps.constraints_are in
    let credential : ps.policy.credential_type ≤ 5 = typed'.credential_type in
    let below : ps.expires_at ≤ max_safe_integer = ps.expires_at_safe.1 in
    rw (← ps.fields_are) (
      omega (arith, len, normal.full),
      (
        omega arith,
        (
          ps.gateway_is.in_field,
          (
            ps.request_is.in_field,
            (
              ps.challenge_is.in_field,
              (omega arith, (omega (arith, ps.index_u8), (omega arith, small))),
            ),
          ),
        ),
      ),
    )

-- Two logins that agree in all that a session commits to; a "0x" in front of a text is no matter.
pub record SameLogin (a b : SessionInput) : Type 0 where
  pub gateway : strip_prefix a.consumer_gateway_address ≡ strip_prefix b.consumer_gateway_address
  pub request_id : strip_prefix a.request_id ≡ strip_prefix b.request_id
  pub challenge : strip_prefix a.session_challenge ≡ strip_prefix b.session_challenge
  pub expires_at : a.expires_at ≡ b.expires_at
  pub requirement_index : a.requirement_index ≡ b.requirement_index
  pub policy : normalize_policy a.policy ≡ normalize_policy b.policy

-- Two logins with the same elements are the same login: gateway, request, challenge, expiry, index
-- and normal policy.
pub session_authorization_fields-injective :
    (a b : SessionInput) (fs : List ℕ)
    → session_authorization_fields a ≡ ok fs
    → session_authorization_fields b ≡ ok fs
    → SameLogin a b
session_authorization_fields-injective a b fs e g =
    let x = parts a fs e in
    let y = parts b fs g in
    let same = x.fields_are ∙ sym y.fields_are in
    let gateways : x.gateway ≡ y.gateway = cc in
    let requests : x.request_id ≡ y.request_id = cc in
    let challenges : x.challenge ≡ y.challenge = cc in
    let times : x.expires_at ≡ y.expires_at = cc in
    let indices : x.index ≡ y.index = cc in
    let types : x.policy.credential_type ≡ y.policy.credential_type = cc in
    let lists : x.constraints ≡ y.constraints = cc in
    let constraints =
      constraint_fields-injective x.policy.constraints y.policy.constraints x.constraints
        x.constraints_are (y.constraints_are ∙ ap ok (sym lists)) in
    let policies : x.policy ≡ y.policy =
      λ i. record { credential_type = types i; constraints = constraints i } in
    record {
      gateway = hex_field-injective _ _ 32 x.gateway x.gateway_is (rw gateways y.gateway_is);
      request_id = hex_field-injective _ _ 16 x.request_id x.request_is (rw requests y.request_is);
      challenge =
          hex_field-injective _ _ 32 x.challenge x.challenge_is (rw challenges y.challenge_is);
      expires_at = x.expires_at_is ∙ ap (λ (t : ℕ). integer (pos t)) times ∙ sym y.expires_at_is;
      requirement_index = x.index_is ∙ ap (λ (t : ℕ). integer (pos t)) indices ∙ sym y.index_is;
      policy = x.normal ∙ ap ok policies ∙ sym y.normal;
    }
