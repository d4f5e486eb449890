-- ===== src/Core/SessionAssertion.antt =====
-- packages/magna-core/src/session-assertion.ts: the field elements that a login commits to.
pub mod Binding
use Prim.Native.String.{String}
use magna_monorepo.Base.{
  ℕ, zero, suc, ◌+◌, ◌-◌, ◌*◌, ◌^◌, ◌≡◌, Bool, true, false, ◌&&◌, ◌||◌, not, List, [], ◌∷◌, ◌++◌,
  map, Result, ok, err, throw_if, ◌>>=◌, ◌>>◌, ltb, leb, ◌==◌, if◌then◌else◌, length, all,
}
use magna_monorepo.Base.Numbers.{ℤ, pos, negsuc}
use magna_monorepo.Base.Radix.{of_digits}
use magna_monorepo.Core.Bytes.{strip_prefix, hex_value}
use magna_monorepo.Core.Values.{Number, integer, not_integer}
use magna_monorepo.Core.Policy.{Constraint, Policy, PolicyError, normalize_policy}

abbrev pub session_assertion_version : ℕ
session_assertion_version = 2

abbrev pub noir_field_modulus : ℕ
noir_field_modulus = 21888242871839275222246405745257275088548364400416034343698204186575808495617

-- `Number.MAX_SAFE_INTEGER`
abbrev pub max_safe_integer : ℕ
max_safe_integer = 9007199254740991

pub data SessionError : Type 0 where
  bad_expires_at bad_requirement_index constraint_outside_field : SessionError
  not_lower_hex : String → ℕ → SessionError
  outside_field : String → SessionError
  bad_policy : PolicyError → SessionError

-- The class [0-9a-f].
unfoldable pub is_lower_hex : ℕ → Bool
is_lower_hex c = (leb b'0' c && leb c b'9') || (leb b'a' c && leb c b'f')

-- `hexField`
unfoldable pub hex_field : List ℕ → String → ℕ → Result SessionError ℕ
unfolding strip_prefix is_lower_hex hex_value
hex_field value label byte_length = do
  let normalized = strip_prefix value
  throw_if (not (length normalized == byte_length * 2 && all is_lower_hex normalized))
      (not_lower_hex label byte_length)
  let field = of_digits 16 (map hex_value normalized)
  throw_if (leb noir_field_modulus field) (outside_field label)
  ok field

pub record SessionInput : Type 0 where
  pub consumer_gateway_address : List ℕ
  pub request_id : List ℕ
  pub session_challenge : List ℕ
  pub expires_at : Number
  pub requirement_index : Number
  pub policy : Policy

-- `Number.isSafeInteger(n) && n > 0`, and the integer.
unfoldable pub positive_safe : Number → Result SessionError ℕ
positive_safe (integer (pos n)) =
    if ltb 0 n && leb n max_safe_integer then ok n else err bad_expires_at
positive_safe (integer (negsuc n)) = err bad_expires_at
positive_safe not_integer = err bad_expires_at

-- `Number.isSafeInteger(n) && n >= 0 && n <= 255`, and the integer.
unfoldable pub index_u8 : Number → Result SessionError ℕ
index_u8 (integer (pos n)) = if leb n 255 then ok n else err bad_requirement_index
index_u8 (integer (negsuc n)) = err bad_requirement_index
index_u8 not_integer = err bad_requirement_index

abbrev pub lift_policy : Result PolicyError Policy → Result SessionError Policy
lift_policy (ok p) = ok p
lift_policy (err e) = err (bad_policy e)

-- `constraint.value < 0n || constraint.value >= NOIR_FIELD_MODULUS` throws.
unfoldable pub field_value : ℤ → Result SessionError ℕ
field_value (pos n) = if leb noir_field_modulus n then err constraint_outside_field else ok n
field_value (negsuc n) = err constraint_outside_field

-- `policy.constraints.flatMap(…)`
unfoldable pub constraint_fields : List Constraint → Result SessionError (List ℕ)
unfolding field_value
constraint_fields [] = ok []
constraint_fields (c ∷ cs) = do
  value ← field_value c.value
  rest ← constraint_fields cs
  ok (c.claim_id ∷ c.op ∷ value ∷ rest)

unfoldable pub session_authorization_fields : SessionInput → Result SessionError (List ℕ)
unfolding hex_field positive_safe index_u8 constraint_fields
session_authorization_fields input = do
  expires_at ← positive_safe input.expires_at
  index ← index_u8 input.requirement_index
  policy ← lift_policy (normalize_policy input.policy)
  gateway ← hex_field input.consumer_gateway_address "consumerGatewayAddress" 32
  request_id ← hex_field input.request_id "requestId" 16
  challenge ← hex_field input.session_challenge "sessionChallenge" 32
  constraints ← constraint_fields policy.constraints
  ok (
      session_assertion_version ∷ gateway ∷ request_id ∷ challenge ∷ expires_at ∷ index
      ∷ policy.credential_type ∷ constraints)
