-- ===== src/Core/Policy.antt =====
-- packages/magna-core/src/types.ts and policy.ts. An enum member is its number at run time: a
-- policy holds the numbers, and `IsPolicy` says what its static type promises of them.
pub mod Normal
use magna_monorepo.Base.{
  ℕ, zero, suc, ◌-◌, ◌≤◌, ◌≡◌, Bool, true, false, List, [], ◌∷◌, ◌++◌, map, Result, ok, err,
  throw_if, ◌>>=◌, ◌>>◌, ltb, ◌==◌, ◌||◌, if◌then◌else◌, length, All,
}
use magna_monorepo.Base.Numbers.{ℤ, pos, negsuc}

pub data CredentialType : Type 0 where
  none passport x instagram student_email work_email : CredentialType

pub data ClaimId : Type 0 where
  none age_min_proven nationality_alpha3 expiry_ts instagram_handle_hash : ClaimId

pub data ConstraintOp : Type 0 where
  none eq neq gte lte : ConstraintOp

abbrev pub credential_code : CredentialType → ℕ
credential_code CredentialType.none = 0
credential_code CredentialType.passport = 1
credential_code CredentialType.x = 2
credential_code CredentialType.instagram = 3
credential_code CredentialType.student_email = 4
credential_code CredentialType.work_email = 5

abbrev pub claim_code : ClaimId → ℕ
claim_code ClaimId.none = 0
claim_code ClaimId.age_min_proven = 1
claim_code ClaimId.nationality_alpha3 = 2
claim_code ClaimId.expiry_ts = 3
claim_code ClaimId.instagram_handle_hash = 4

abbrev pub op_code : ConstraintOp → ℕ
op_code ConstraintOp.none = 0
op_code ConstraintOp.eq = 1
op_code ConstraintOp.neq = 2
op_code ConstraintOp.gte = 3
op_code ConstraintOp.lte = 4

pub record Constraint : Type 0 where
  pub claim_id : ℕ
  pub op : ℕ
  pub value : ℤ

pub record Policy : Type 0 where
  pub credential_type : ℕ
  pub constraints : List Constraint

abbrev pub max_constraints : ℕ
max_constraints = 8

pub data PolicyError : Type 0 where
  too_many_constraints : PolicyError

-- The entry that fills a policy up.
abbrev pub no_constraint : Constraint
no_constraint = record {
  claim_id = claim_code ClaimId.none;
  op = op_code ConstraintOp.none;
  value = pos 0;
}

-- `while (next.length < size) next.push(…)`; each round adds one, so `size` rounds are enough.
unfoldable pub pad_loop : ℕ → List Constraint → ℕ → List Constraint
pad_loop zero next size = next
pad_loop (suc fuel) next size =
    let longer = pad_loop fuel (next ++ (no_constraint ∷ [])) size in
    if ltb (length next) size then longer else next

unfoldable pub pad_constraints : List Constraint → ℕ → List Constraint
unfolding pad_loop
pad_constraints constraints size = pad_loop size constraints size

unfoldable pub normalize_policy : Policy → Result PolicyError Policy
unfolding pad_constraints
normalize_policy policy = do
  throw_if (ltb max_constraints (length policy.constraints)) too_many_constraints
  ok (record policy { constraints = pad_constraints policy.constraints max_constraints })

pub age_gte_constraint : ℕ → Constraint
age_gte_constraint age = record {
  claim_id = claim_code ClaimId.age_min_proven;
  op = op_code ConstraintOp.gte;
  value = pos age;
}

pub country_neq_constraint : ℤ → Constraint
country_neq_constraint alpha3_packed = record {
  claim_id = claim_code ClaimId.nationality_alpha3;
  op = op_code ConstraintOp.neq;
  value = alpha3_packed;
}

pub expiry_gte_constraint : ℤ → Constraint
expiry_gte_constraint unix_ts = record {
  claim_id = claim_code ClaimId.expiry_ts;
  op = op_code ConstraintOp.gte;
  value = unix_ts;
}

unfoldable pub instagram_handle_eq_constraint : ℤ → Constraint
instagram_handle_eq_constraint handle_hash = record {
  claim_id = claim_code ClaimId.instagram_handle_hash;
  op = op_code ConstraintOp.eq;
  value = handle_hash;
}

-- What the static types promise of the numbers.
pub record IsConstraint (c : Constraint) : Type 0 where
  pub claim_id : c.claim_id ≤ 4
  pub op : c.op ≤ 4

pub record IsPolicy (p : Policy) : Type 0 where
  pub credential_type : p.credential_type ≤ 5
  pub constraints : All IsConstraint p.constraints
