-- ===== src/Core/ConnectorProtocol/Policies.antt =====
-- Which messages `assertWirePolicy` lets through, and the round trip of a policy.
use magna_monorepo.Base.{
  ℕ, suc, ◌≤◌, ◌<◌, ◌≡◌, refl, sym, ap, ◌∙◌, Bool, true, false, List, [], ◌∷◌, map, length, All,
  arith, ◌↔◌, length-map, ok, >>=-eq-ok, throw_if, lt→ltb, le→ltb, ltb→lt,
}
use mathlib.Core.Path.{ap₂}
use magna_monorepo.Base.Numbers.{pos}
use magna_monorepo.Base.Texts.{codes}
use magna_monorepo.Core.Values.{
  integer, Value, number, string, array, object, Elements, Properties, get, elements,
}
use magna_monorepo.Core.Bytes.{to_string_radix}
use magna_monorepo.Core.Policy.{Constraint, Policy, IsConstraint, IsPolicy}
use magna_monorepo.Core.ConnectorProtocol.{
  is_enum_value, assert_canonical_decimal, assert_wire_constraint, assert_wire_constraints,
  assert_constraint_array, assert_wire_policy,
}
use magna_monorepo.Core.ConnectorProtocol.Decimal.{
  parse_decimal-to_string, canonical-to_string, is_canonical_decimal_iff,
}
use magna_monorepo.Core.ConnectorProtocol.Wire.{
  bigint_to_string, constraint_to_wire, map_elements, policy_to_wire, parse_decimal,
  constraint_from_wire, policy_of_wire, policy_from_wire, properties_of,
}

-- A number of an enum with `count` members.
abbrev pub IsMember : ℕ → Value → Type 0
IsMember count v = (n : ℕ) × (v ≡ number (integer (pos n))) × (n < count)

-- The print of a natural number, of at most 78 digits.
abbrev pub IsAmount : Value → Type 0
IsAmount v = (n : ℕ) × (v ≡ string (to_string_radix 10 n)) × (length (to_string_radix 10 n) ≤ 78)

pub record IsWireConstraint (v : Value) : Type 0 where
  pub fields : Properties
  pub is_object : v ≡ object fields
  pub claim_id : IsMember 5 (get (codes "claimId") fields)
  pub op : IsMember 5 (get (codes "op") fields)
  pub value : IsAmount (get (codes "value") fields)

pub record IsWirePolicy (v : Value) : Type 0 where
  pub fields : Properties
  pub is_object : v ≡ object fields
  pub credential_type : IsMember 6 (get (codes "credentialType") fields)
  pub entries : Elements
  pub is_array : get (codes "constraints") fields ≡ array entries
  pub few : length (elements entries) ≤ 8
  pub each : All IsWireConstraint (elements entries)

is_enum_value_sound : (k : ℕ) (v : Value) → is_enum_value k v ≡ true → IsMember k v
unfolding is_enum_value
is_enum_value_sound k (number (integer (pos n))) h = (n, refl, ltb→lt n k h)
is_enum_value_sound k _ h = cc

is_enum_value_complete : (k : ℕ) (v : Value) → IsMember k v → is_enum_value k v ≡ true
unfolding is_enum_value
is_enum_value_complete k v (n, e, h) = rw e (lt→ltb n k h)

throw_if-eq-ok {ℓ} : {E : Type ℓ} (b : Bool) (e : E) → throw_if b e ≡ ok tt → b ≡ false
throw_if-eq-ok true e h = cc
throw_if-eq-ok false e h = refl

assert_canonical_decimal_sound : (v : Value) → assert_canonical_decimal v ≡ ok tt → IsAmount v
unfolding assert_canonical_decimal
assert_canonical_decimal_sound (string s) h =
    let (n, e) = (is_canonical_decimal_iff s).0 (ground arith) in
    (n, ap string e, rw e at (let short : length s ≤ 78 = ground arith in short))
assert_canonical_decimal_sound _ h = cc

assert_canonical_decimal_complete : (v : Value) → IsAmount v → assert_canonical_decimal v ≡ ok tt
unfolding assert_canonical_decimal
assert_canonical_decimal_complete v (n, e, h) =
    rw e (rw (canonical-to_string n, le→ltb 78 (length (to_string_radix 10 n)) h))

assert_wire_constraint_sound : (v : Value) → assert_wire_constraint v ≡ ok tt → IsWireConstraint v
unfolding assert_wire_constraint
assert_wire_constraint_sound (object c) h = record {
  fields = c;
  is_object = refl;
  claim_id = is_enum_value_sound 5 _ (ground arith);
  op = is_enum_value_sound 5 _ (ground arith);
  value = assert_canonical_decimal_sound _ (ground arith);
}
assert_wire_constraint_sound _ h = cc

assert_wire_constraint_complete :
    (v : Value) → IsWireConstraint v → assert_wire_constraint v ≡ ok tt
unfolding assert_wire_constraint
assert_wire_constraint_complete v w = rw w.is_object (
    rw (is_enum_value_complete 5 _ w.claim_id, is_enum_value_complete 5 _ w.op)
      (assert_canonical_decimal_complete _ w.value))

assert_wire_constraints_iff :
    (vs : List Value) → (assert_wire_constraints vs ≡ ok tt) ↔ All IsWireConstraint vs
unfolding assert_wire_constraints
assert_wire_constraints_iff [] = (λ _. tt, λ _. refl)
assert_wire_constraints_iff (v ∷ vs) = (
  λ h.
      let (_, first, rest) = >>=-eq-ok (assert_wire_constraint v) _ h in
      (assert_wire_constraint_sound v first, (assert_wire_constraints_iff vs).0 rest),
  λ h. rw (assert_wire_constraint_complete v h.0) ((assert_wire_constraints_iff vs).1 h.1),
)

abbrev IsConstraintArray : Value → Type 0
IsConstraintArray v =
    (es : Elements) × (v ≡ array es)
    × (length (elements es) ≤ 8)
    × All IsWireConstraint (elements es)

assert_constraint_array_sound :
    (v : Value) → assert_constraint_array v ≡ ok tt → IsConstraintArray v
unfolding assert_constraint_array
assert_constraint_array_sound (array es) h =
    (es, refl, ground arith, (assert_wire_constraints_iff (elements es)).0 (ground arith))
assert_constraint_array_sound _ h = cc

assert_wire_policy_sound : (v : Value) → assert_wire_policy v ≡ ok tt → IsWirePolicy v
unfolding assert_wire_policy
assert_wire_policy_sound (object p) h =
    let (es, is_array, few, each) =
      assert_constraint_array_sound (get (codes "constraints") p) (ground arith) in
    record {
      fields = p;
      is_object = refl;
      credential_type = is_enum_value_sound 6 _ (ground arith);
      entries = es;
      is_array = is_array;
      few = few;
      each = each;
    }
assert_wire_policy_sound _ h = cc

assert_wire_policy_complete : (v : Value) → IsWirePolicy v → assert_wire_policy v ≡ ok tt
unfolding assert_wire_policy assert_constraint_array
assert_wire_policy_complete v w = rw w.is_object (
    rw (is_enum_value_complete 6 _ w.credential_type, w.is_array)
      (rw (le→ltb 8 (length (elements w.entries)) w.few)
        ((assert_wire_constraints_iff (elements w.entries)).1 w.each)))

-- `assertWirePolicy` returns exactly on the messages that describe a policy.
pub assert_wire_policy_iff : (v : Value) → (assert_wire_policy v ≡ ok tt) ↔ IsWirePolicy v
assert_wire_policy_iff v = (assert_wire_policy_sound v, assert_wire_policy_complete v)

-- A value that fits the wire: a natural number of at most 78 digits.
abbrev pub FitsWire : Constraint → Type 0
FitsWire c = (n : ℕ) × (c.value ≡ pos n) × (length (to_string_radix 10 n) ≤ 78)

constraint_to_wire-IsWireConstraint :
    (c : Constraint) → IsConstraint c → FitsWire c → IsWireConstraint (constraint_to_wire c)
unfolding constraint_to_wire bigint_to_string
constraint_to_wire-IsWireConstraint c is (n, e, short) = record {
  fields = properties_of (constraint_to_wire c);
  is_object = refl;
  claim_id = (c.claim_id, refl, omega (arith, is.claim_id));
  op = (c.op, refl, omega (arith, is.op));
  value = (n, ap (λ z. string (bigint_to_string z)) e, short);
}

constraint_from_wire-to_wire :
    (c : Constraint) → FitsWire c → constraint_from_wire (constraint_to_wire c) ≡ c
unfolding constraint_from_wire constraint_to_wire bigint_to_string
constraint_from_wire-to_wire c (n, e, short) =
    let back : pos (parse_decimal (bigint_to_string c.value)) ≡ c.value =
      ap (λ z. pos (parse_decimal (bigint_to_string z))) e
      ∙ ap pos (parse_decimal-to_string n)
      ∙ sym e in
    λ i. record { claim_id = c.claim_id; op = c.op; value = back i }

abbrev wire_entries : List Constraint → Elements
wire_entries cs = map_elements constraint_to_wire cs

wire_entries-All :
    (cs : List Constraint)
    → All IsConstraint cs
    → All FitsWire cs
    → All IsWireConstraint (elements (wire_entries cs))
      × (map constraint_from_wire (elements (wire_entries cs)) ≡ cs)
      × (length (elements (wire_entries cs)) ≡ length cs)
wire_entries-All [] h k = (tt, refl, refl)
wire_entries-All (c ∷ cs) (p, h) (q, k) =
    let (each, back, len) = wire_entries-All cs h k in
    (
      (constraint_to_wire-IsWireConstraint c p q, each),
      ap₂ (λ x xs. x ∷ xs) (constraint_from_wire-to_wire c q) back,
      ap suc len,
    )

-- A well-typed policy of at most eight constraints, with values that fit, comes back from the wire.
pub policy_from_wire-policy_to_wire :
    (p : Policy)
    → IsPolicy p
    → length p.constraints ≤ 8
    → All FitsWire p.constraints
    → policy_from_wire (policy_to_wire p) ≡ ok p
unfolding policy_from_wire policy_to_wire
policy_from_wire-policy_to_wire p typed few fits =
    let (each, back, len) = wire_entries-All p.constraints typed.constraints fits in
    let is : IsWirePolicy (policy_to_wire p) = record {
      fields = properties_of (policy_to_wire p);
      is_object = refl;
      credential_type = (p.credential_type, refl, omega (arith, typed.credential_type));
      entries = wire_entries p.constraints;
      is_array = refl;
      few = omega (arith, len);
      each = each;
    } in
    rw (assert_wire_policy_complete (policy_to_wire p) is)
      (λ i. ok (record { credential_type = p.credential_type; constraints = back i }))

constraint_from_wire-IsConstraint :
    (v : Value)
    → IsWireConstraint v
    → IsConstraint (constraint_from_wire v) × FitsWire (constraint_from_wire v)
unfolding constraint_from_wire
constraint_from_wire-IsConstraint v w =
    let (claim, claim_is, claim_small) = w.claim_id in
    let (op, op_is, op_small) = w.op in
    let (n, value_is, short) = w.value in
    rw w.is_object (
      rw (claim_is, op_is, value_is)
        (
          record { claim_id = omega arith; op = omega arith },
          (n, ap pos (parse_decimal-to_string n), short),
        ))

constraints_from_wire-All :
    (vs : List Value)
    → All IsWireConstraint vs
    → All IsConstraint (map constraint_from_wire vs) × All FitsWire (map constraint_from_wire vs)
constraints_from_wire-All [] h = (tt, tt)
constraints_from_wire-All (v ∷ vs) (w, h) =
    let (typed, fits) = constraint_from_wire-IsConstraint v w in
    let (typeds, fitss) = constraints_from_wire-All vs h in ((typed, typeds), (fits, fitss))

policy_from_wire-eq-ok :
    (v : Value) (p : Policy)
    → policy_from_wire v ≡ ok p
    → (assert_wire_policy v ≡ ok tt) × (policy_of_wire v ≡ p)
unfolding policy_from_wire
policy_from_wire-eq-ok v p e = (ground arith, ground arith)

policy_of_wire-IsPolicy :
    (v : Value)
    → IsWirePolicy v
    → IsPolicy (policy_of_wire v)
      × (length (policy_of_wire v).constraints ≤ 8)
      × All FitsWire (policy_of_wire v).constraints
unfolding policy_of_wire
policy_of_wire-IsPolicy v w =
    let (n, type_is, type_small) = w.credential_type in
    let (typed, fits) = constraints_from_wire-All (elements w.entries) w.each in
    rw w.is_object (
      rw (type_is, w.is_array)
        (
          record { credential_type = omega arith; constraints = typed },
          omega (arith, w.few, length-map (elements w.entries) constraint_from_wire),
          fits,
        ))

-- A policy that is read from a message is well typed, has at most eight constraints and its values
-- are natural numbers of at most 78 digits.
pub policy_from_wire_sound :
    (v : Value) (p : Policy)
    → policy_from_wire v ≡ ok p
    → IsPolicy p × (length p.constraints ≤ 8) × All FitsWire p.constraints
policy_from_wire_sound v p e =
    let (asserted, built) = policy_from_wire-eq-ok v p e in
    rw (← built) (policy_of_wire-IsPolicy v (assert_wire_policy_sound v asserted))
