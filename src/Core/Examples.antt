-- ===== src/Core/Examples.antt =====
-- The theorems on the shared protocol at a small policy and a small login.
use magna_monorepo.Base.{
  ℕ, ◌≤◌, ◌≡◌, ◌↔◌, refl, true, List, [], ◌∷◌, All, ok, length, replicate, arith,
}
use magna_monorepo.Base.Numbers.{pos}
use magna_monorepo.Base.Texts.{codes}
use magna_monorepo.Core.Values.{Value, integer, string, number, object, end, property}
use magna_monorepo.Core.Bytes.{hex_to_bytes, to_string_radix}
use magna_monorepo.Core.Policy.{Policy, Constraint, IsPolicy, normalize_policy}
use magna_monorepo.Core.SessionAssertion.{SessionInput, session_authorization_fields}
use magna_monorepo.Core.SessionAssertion.Binding.{SameLogin, session_authorization_fields-injective}
use magna_monorepo.Core.ConnectorProtocol.{
  assert_login_request, assert_wire_policy, is_canonical_decimal,
}
use magna_monorepo.Core.ConnectorProtocol.Decimal.{is_canonical_decimal_iff}
use magna_monorepo.Core.ConnectorProtocol.Wire.{policy_to_wire, policy_from_wire}
use magna_monorepo.Core.ConnectorProtocol.Policies.{
  IsWirePolicy, assert_wire_policy_iff, FitsWire, policy_from_wire-policy_to_wire,
  policy_from_wire_sound,
}
use magna_monorepo.Core.ConnectorProtocol.LoginRequests.{IsLoginRequest, assert_login_request_iff}

upper_hex-parsed : hex_to_bytes (codes "0x0A") ≡ ok (10 ∷ [])
unfolding hex_to_bytes
upper_hex-parsed = refl

is_canonical_decimal_iff_example :
    (is_canonical_decimal (codes "12") ≡ true) ↔ ((n : ℕ) × (codes "12" ≡ to_string_radix 10 n))
is_canonical_decimal_iff_example = is_canonical_decimal_iff (codes "12")

abbrev adult : Constraint
adult = record { claim_id = 1; op = 2; value = pos 18 }

abbrev adults : Policy
adults = record { credential_type = 1; constraints = adult ∷ [] }

adults-IsPolicy : IsPolicy adults
adults-IsPolicy = record {
  credential_type = omega arith;
  constraints = (record { claim_id = omega arith; op = omega arith }, tt);
}

adult-FitsWire : FitsWire adult
unfolding to_string_radix
adult-FitsWire = (18, refl, short)
  where
    short : length (to_string_radix 10 18) ≤ 78
    short = omega arith

adults-sent : policy_from_wire (policy_to_wire adults) ≡ ok adults
adults-sent =
    policy_from_wire-policy_to_wire adults adults-IsPolicy (omega arith) (adult-FitsWire, tt)

policy_from_wire-policy_to_wire_example : policy_from_wire (policy_to_wire adults) ≡ ok adults
policy_from_wire-policy_to_wire_example =
    policy_from_wire-policy_to_wire adults adults-IsPolicy (omega arith) (adult-FitsWire, tt)

policy_from_wire_sound_example :
    IsPolicy adults × (length adults.constraints ≤ 8) × All FitsWire adults.constraints
policy_from_wire_sound_example = policy_from_wire_sound (policy_to_wire adults) adults adults-sent

assert_wire_policy_iff_example :
    (assert_wire_policy (policy_to_wire adults) ≡ ok tt) ↔ IsWirePolicy (policy_to_wire adults)
assert_wire_policy_iff_example = assert_wire_policy_iff (policy_to_wire adults)

abbrev login_request : Value
login_request = object (
    property (codes "v") (number (integer (pos 1))) (
      property (codes "kind") (string (codes "magna:login-request")) (
        property (codes "clientId") (string (codes "app")) (
          property (codes "origin") (string (codes "https://app")) (
            property (codes "requestId") (string (replicate 32 b'1')) (
              property (codes "sessionChallenge") (string (replicate 64 b'0')) (
                property (codes "policy") (policy_to_wire adults) (
                  property (codes "policyHash") (string (b'0' ∷ b'x' ∷ replicate 64 b'a'))
                    (property (codes "responseMode") (string (codes "postMessage")) end)))))))))

assert_login_request_iff_example :
    (assert_login_request login_request ≡ ok tt) ↔ IsLoginRequest login_request
assert_login_request_iff_example = assert_login_request_iff login_request

abbrev small_login : SessionInput
small_login = record {
  consumer_gateway_address = replicate 64 b'0';
  request_id = replicate 32 b'1';
  session_challenge = replicate 64 b'0';
  expires_at = integer (pos 1300);
  requirement_index = integer (pos 0);
  policy = adults;
}

abbrev small_fields : List ℕ
small_fields =
    2 ∷ 0 ∷ 22685491128062564230891640495451214097 ∷ 0 ∷ 1300 ∷ 0 ∷ 1 ∷ 1 ∷ 2 ∷ 18 ∷ replicate 21 0

small_login-fields : session_authorization_fields small_login ≡ ok small_fields
unfolding session_authorization_fields normalize_policy
small_login-fields = refl

session_authorization_fields-injective_example : SameLogin small_login small_login
session_authorization_fields-injective_example =
    session_authorization_fields-injective small_login small_login small_fields small_login-fields
      small_login-fields
