-- ===== src/Core/ConnectorProtocol.antt =====
-- packages/magna-core/src/connector-protocol.ts: the messages of a login, and their validation. A
-- message is a `Value`; an assertion returns nothing, or throws.
pub mod Decimal
pub mod Wire
pub mod Accepted
pub mod LoginRequests
pub mod Policies
use Prim.Native.String.{String}
use magna_monorepo.Base.{
  ℕ, zero, suc, ◌+◌, ◌-◌, ◌*◌, ◌≡◌, Bool, true, false, ◌&&◌, ◌||◌, not, List, [], ◌∷◌, ◌++◌, map,
  Result, ok, err, throw_if, ◌>>=◌, ◌>>◌, ltb, leb, ◌==◌, if◌then◌else◌, length, all,
}
use magna_monorepo.Base.Numbers.{ℤ, pos, negsuc}
use magna_monorepo.Base.Radix.{of_digits}
use magna_monorepo.Base.Texts.{codes, text_eq}
use magna_monorepo.Core.Values.{
  Number, integer, not_integer, Value, undefined, null, boolean, number, string, array, object,
  Elements, nil, cons, Properties, end, property, get, elements,
}
use magna_monorepo.Core.Bytes.{to_string_radix, bytes_to_hex}
use magna_monorepo.Core.Policy.{Constraint, Policy, PolicyError, max_constraints, normalize_policy}
use magna_monorepo.Core.SessionAssertion.{is_lower_hex}

pub data ProtocolError : Type 0 where
  policy_not_object bad_credential_type bad_constraints constraint_not_object : ProtocolError
  bad_claim_id bad_op bad_value : ProtocolError
  bad_requirement_id bad_handle bad_requirements requirement_not_object : ProtocolError
  repeated_id bad_requirement_kind : ProtocolError
  hex_not_string bad_hex : String → ProtocolError
  request_not_object bad_version client_id_required origin_required : ProtocolError
  bad_response_mode redirect_uri_required : ProtocolError

abbrev pub max_decimal_digits : ℕ
max_decimal_digits = 78

-- The numbers among `Object.values(enumObject)`; all three enums count from 0.
abbrev pub credential_types : ℕ
credential_types = 6

abbrev pub claim_ids : ℕ
claim_ids = 5

abbrev pub constraint_ops : ℕ
constraint_ops = 5

-- `isEnumValue`, for an enum with `count` members.
unfoldable pub is_enum_value : ℕ → Value → Bool
is_enum_value count (number (integer (pos n))) = ltb n count
is_enum_value count _ = false

unfoldable pub is_digit : ℕ → Bool
is_digit c = leb b'0' c && leb c b'9'

-- /^(0|[1-9]\d*)$/
unfoldable pub is_canonical_decimal : List ℕ → Bool
unfolding is_digit
is_canonical_decimal [] = false
is_canonical_decimal (c ∷ rest) =
    (c == b'0' && length rest == 0) || (leb b'1' c && leb c b'9' && all is_digit rest)

unfoldable pub assert_canonical_decimal : Value → Result ProtocolError (Unit {0})
unfolding is_canonical_decimal
assert_canonical_decimal (string s) =
    throw_if (not (is_canonical_decimal s) || ltb max_decimal_digits (length s)) bad_value
assert_canonical_decimal _ = err bad_value

-- One round of the loop over the constraints.
unfoldable pub assert_wire_constraint : Value → Result ProtocolError (Unit {0})
unfolding is_enum_value assert_canonical_decimal
assert_wire_constraint (object c) = do
  throw_if (not (is_enum_value claim_ids (get (codes "claimId") c))) bad_claim_id
  throw_if (not (is_enum_value constraint_ops (get (codes "op") c))) bad_op
  assert_canonical_decimal (get (codes "value") c)
assert_wire_constraint _ = err constraint_not_object

unfoldable pub assert_wire_constraints : List Value → Result ProtocolError (Unit {0})
unfolding assert_wire_constraint
assert_wire_constraints [] = ok tt
assert_wire_constraints (c ∷ cs) = do assert_wire_constraint c; assert_wire_constraints cs

-- `!Array.isArray(constraints) || constraints.length > MAX_CONSTRAINTS` throws; then the loop.
unfoldable pub assert_constraint_array : Value → Result ProtocolError (Unit {0})
unfolding assert_wire_constraints
assert_constraint_array (array es) = do
  throw_if (ltb max_constraints (length (elements es))) bad_constraints
  assert_wire_constraints (elements es)
assert_constraint_array _ = err bad_constraints

unfoldable pub assert_wire_policy : Value → Result ProtocolError (Unit {0})
unfolding is_enum_value assert_constraint_array
assert_wire_policy (object p) = do
  throw_if (not (is_enum_value credential_types (get (codes "credentialType") p)))
      bad_credential_type
  assert_constraint_array (get (codes "constraints") p)
assert_wire_policy _ = err policy_not_object

-- [a-z0-9_-]
unfoldable pub is_id_char : ℕ → Bool
unfolding is_digit
is_id_char c = (leb b'a' c && leb c b'z') || is_digit c || c == b'_' || c == b'-'

-- [a-z0-9._]
unfoldable pub is_handle_char : ℕ → Bool
unfolding is_digit
is_handle_char c = (leb b'a' c && leb c b'z') || is_digit c || c == b'.' || c == b'_'

-- /^[class]{1,most}$/
abbrev pub matches_run : (ℕ → Bool) → ℕ → List ℕ → Bool
matches_run class most s = all class s && leb 1 (length s) && leb (length s) most

-- `assertRequirementId`, with the id that it lets through.
unfoldable pub assert_requirement_id : Value → Result ProtocolError (List ℕ)
unfolding is_id_char
assert_requirement_id (string s) = do
  throw_if (not (matches_run is_id_char 40 s)) bad_requirement_id
  ok s
assert_requirement_id _ = err bad_requirement_id

unfoldable pub assert_instagram_handle : Value → Result ProtocolError (Unit {0})
unfolding is_handle_char
assert_instagram_handle (string s) = throw_if (not (matches_run is_handle_char 30 s)) bad_handle
assert_instagram_handle _ = err bad_handle

-- `value === "literal"`
abbrev pub is_text : String → Value → Bool
is_text literal (string s) = text_eq s (codes literal)
is_text literal _ = false

-- `ids.has(id)`
abbrev pub has : List (List ℕ) → List ℕ → Bool
has [] id = false
has (i ∷ ids) id = text_eq i id || has ids id

-- What follows the id in one round of the loop over the requirements.
unfoldable pub assert_requirement_body : Properties → Result ProtocolError (Unit {0})
unfolding assert_wire_policy assert_instagram_handle
assert_requirement_body r =
    if is_text "policy" (get (codes "kind") r)
    then assert_wire_policy (get (codes "policy") r)
    else if is_text "instagram-handle" (get (codes "kind") r)
    then assert_instagram_handle (get (codes "handle") r)
    else err bad_requirement_kind

-- One round: the ids seen before and the requirement give the ids seen after it.
unfoldable pub assert_requirement : List (List ℕ) → Value → Result ProtocolError (List (List ℕ))
unfolding assert_requirement_id assert_requirement_body
assert_requirement ids (object r) = do
  id ← assert_requirement_id (get (codes "id") r)
  throw_if (has ids id) repeated_id
  assert_requirement_body r
  ok (id ∷ ids)
assert_requirement ids _ = err requirement_not_object

unfoldable pub assert_requirements_from :
    List (List ℕ) → List Value → Result ProtocolError (Unit {0})
unfolding assert_requirement
assert_requirements_from ids [] = ok tt
assert_requirements_from ids (r ∷ rs) = do
  ids' ← assert_requirement ids r
  assert_requirements_from ids' rs

unfoldable pub assert_wire_login_requirements : Value → Result ProtocolError (Unit {0})
unfolding assert_requirements_from
assert_wire_login_requirements undefined = ok tt
assert_wire_login_requirements (array es) = do
  throw_if (ltb (length (elements es)) 1 || ltb 4 (length (elements es))) bad_requirements
  assert_requirements_from [] (elements es)
assert_wire_login_requirements _ = err bad_requirements

-- The pattern of `assertHex`, behind "0x" where `prefixed` says so.
unfoldable pub matches_hex : ℕ → Bool → List ℕ → Bool
unfolding is_lower_hex
matches_hex byte_length false s = all is_lower_hex s && length s == byte_length * 2
matches_hex byte_length true (a ∷ b ∷ s) =
    a == b'0' && b == b'x' && all is_lower_hex s && length s == byte_length * 2
matches_hex byte_length true _ = false

unfoldable pub assert_hex : Value → ℕ → String → Bool → Result ProtocolError (Unit {0})
unfolding matches_hex
assert_hex (string s) byte_length label prefixed =
    throw_if (not (matches_hex byte_length prefixed s)) (bad_hex label)
assert_hex _ byte_length label prefixed = err (hex_not_string label)

-- `typeof value === "string"`
abbrev pub is_string : Value → Bool
is_string (string s) = true
is_string _ = false

-- `typeof value === "string" && value.length !== 0`
abbrev pub is_filled_string : Value → Bool
is_filled_string (string s) = not (length s == 0)
is_filled_string _ = false

-- `value === 1`
abbrev pub is_one : Value → Bool
is_one (number (integer (pos n))) = n == 1
is_one _ = false

unfoldable pub assert_login_request : Value → Result ProtocolError (Unit {0})
assert_login_request (object r) = do
  throw_if
      (not (is_one (get (codes "v") r))
        || not (is_text "magna:login-request" (get (codes "kind") r)))
      bad_version
  throw_if (not (is_filled_string (get (codes "clientId") r))) client_id_required
  throw_if (not (is_filled_string (get (codes "origin") r))) origin_required
  assert_hex (get (codes "requestId") r) 16 "requestId" false
  assert_hex (get (codes "sessionChallenge") r) 32 "sessionChallenge" false
  assert_hex (get (codes "policyHash") r) 32 "policyHash" true
  assert_wire_policy (get (codes "policy") r)
  assert_wire_login_requirements (get (codes "requirements") r)
  throw_if
      (not (is_text "postMessage" (get (codes "responseMode") r))
        && not (is_text "redirectCode" (get (codes "responseMode") r)))
      bad_response_mode
  throw_if
      (is_text "redirectCode" (get (codes "responseMode") r)
        && not (is_string (get (codes "redirectUri") r)))
      redirect_uri_required
assert_login_request _ = err request_not_object
