-- ===== src/Core/ConnectorProtocol/Wire.antt =====
-- packages/magna-core/src/connector-protocol.ts: from policies and requirements to messages, and
-- back; and the random texts of a request.
use magna_monorepo.Base.{ℕ, ◌+◌, ◌-◌, List, [], ◌∷◌, map, Result, ok, ◌>>=◌, ◌>>◌}
use magna_monorepo.Base.Numbers.{ℤ, pos, negsuc}
use magna_monorepo.Base.Radix.{of_digits}
use magna_monorepo.Base.Texts.{codes}
use magna_monorepo.Core.Values.{
  integer, Value, number, string, array, object, Elements, nil, cons, Properties, end, property,
  get, elements,
}
use magna_monorepo.Core.Bytes.{to_string_radix, bytes_to_hex}
use magna_monorepo.Core.Policy.{Constraint, Policy, PolicyError, normalize_policy}
use magna_monorepo.Core.ConnectorProtocol.{ProtocolError, assert_wire_policy}

-- `randomHex`; the bytes are what `crypto.getRandomValues` gave.
unfoldable pub random_hex : List ℕ → List ℕ
random_hex bytes = bytes_to_hex bytes

-- `randomFieldHex`, over 31 random bytes.
unfoldable pub random_field_hex : List ℕ → List ℕ
unfolding random_hex
random_field_hex bytes = b'0' ∷ b'0' ∷ random_hex bytes

-- `value.toString()` of a bigint.
unfoldable pub bigint_to_string : ℤ → List ℕ
bigint_to_string (pos n) = to_string_radix 10 n
bigint_to_string (negsuc n) = b'-' ∷ to_string_radix 10 (n + 1)

unfoldable pub constraint_to_wire : Constraint → Value
unfolding bigint_to_string
constraint_to_wire c = object (
    property (codes "claimId") (number (integer (pos c.claim_id))) (
      property (codes "op") (number (integer (pos c.op)))
        (property (codes "value") (string (bigint_to_string c.value)) end)))

abbrev pub map_elements {ℓ} : {A : Type ℓ} → (A → Value) → List A → Elements
map_elements f [] = nil
map_elements f (x ∷ xs) = cons (f x) (map_elements f xs)

unfoldable pub policy_to_wire : Policy → Value
unfolding constraint_to_wire
policy_to_wire policy = object (
    property (codes "credentialType") (number (integer (pos policy.credential_type))) (
      property (codes "constraints") (array (map_elements constraint_to_wire policy.constraints))
        end))

-- Reading what `assertWirePolicy` has let through; after it only the first clause of each applies.
abbrev pub number_of : Value → ℕ
number_of (number (integer (pos n))) = n
number_of _ = 0

abbrev pub text_of : Value → List ℕ
text_of (string s) = s
text_of _ = []

abbrev pub properties_of : Value → Properties
properties_of (object p) = p
properties_of _ = end

abbrev pub list_of : Value → List Value
list_of (array es) = elements es
list_of _ = []

-- `BigInt(s)` of a row of decimal digits.
unfoldable pub parse_decimal : List ℕ → ℕ
parse_decimal s = of_digits 10 (map (λ c. c - b'0') s)

unfoldable pub constraint_from_wire : Value → Constraint
unfolding parse_decimal
constraint_from_wire v = record {
  claim_id = number_of (get (codes "claimId") (properties_of v));
  op = number_of (get (codes "op") (properties_of v));
  value = pos (parse_decimal (text_of (get (codes "value") (properties_of v))));
}

-- The policy that `policyFromWire` builds once the assertion has returned.
unfoldable pub policy_of_wire : Value → Policy
unfolding constraint_from_wire
policy_of_wire wire = record {
  credential_type = number_of (get (codes "credentialType") (properties_of wire));
  constraints = map constraint_from_wire (list_of (get (codes "constraints") (properties_of wire)));
}

unfoldable pub policy_from_wire : Value → Result ProtocolError Policy
unfolding assert_wire_policy policy_of_wire
policy_from_wire wire = do assert_wire_policy wire; ok (policy_of_wire wire)

pub data LoginRequirement : Type 0 where
  policy : List ℕ → Policy → LoginRequirement
  instagram_handle : List ℕ → List ℕ → LoginRequirement

unfoldable pub requirement_to_wire : LoginRequirement → Result PolicyError Value
unfolding policy_to_wire
requirement_to_wire (policy id p) = do
  q ← normalize_policy p
  ok (
      object (
        property (codes "id") (string id) (
          property (codes "kind") (string (codes "policy"))
            (property (codes "policy") (policy_to_wire q) end))))
requirement_to_wire (instagram_handle id handle) = ok (
    object (
      property (codes "id") (string id) (
        property (codes "kind") (string (codes "instagram-handle"))
          (property (codes "handle") (string handle) end))))

unfoldable pub login_requirements_to_wire : List LoginRequirement → Result PolicyError Elements
unfolding requirement_to_wire
login_requirements_to_wire [] = ok nil
login_requirements_to_wire (r ∷ rs) = do
  first ← requirement_to_wire r
  rest ← login_requirements_to_wire rs
  ok (cons first rest)
