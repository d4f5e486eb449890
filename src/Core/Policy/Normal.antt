-- ===== src/Core/Policy/Normal.antt =====
-- The normal form of a policy: eight constraints, the given ones first.
use magna_monorepo.Base.{
  ℕ, zero, suc, ◌+◌, ◌-◌, ◌≤◌, ◌<◌, ◌≡◌, refl, ap, sym, ◌∙◌, List, [], ◌∷◌, ◌++◌, ok, err, ltb,
  length, arith, inl, inr, Bool-cases, replicate, subst, length-append, length-replicate, ltb→lt,
  lt→ltb, le→ltb, All-append, All-replicate,
}
use mathlib.Core.List.{append-nil, append_assoc}
use magna_monorepo.Core.Policy.{
  Constraint, Policy, too_many_constraints, no_constraint, pad_loop, pad_constraints,
  normalize_policy, IsConstraint, IsPolicy,
}

pad_loop-replicate :
    (fuel : ℕ) (next : List Constraint) (size : ℕ)
    → size ≤ fuel + length next
    → pad_loop fuel next size ≡ next ++ replicate (size - length next) no_constraint
unfolding pad_loop
pad_loop-replicate zero next size h =
    let none_left : size - length next ≡ 0 = omega arith in rw none_left (sym (append-nil next))
pad_loop-replicate (suc fuel) next size h = elim (Bool-cases (ltb (length next) size)) [
  | inl more ↦
      let longer : List Constraint = next ++ (no_constraint ∷ []) in
      let len : length longer ≡ length next + 1 = length-append next (no_constraint ∷ []) in
      let one_more : size - length next ≡ suc (size - length longer) = ground (arith, len) in
      rw (more, one_more)
        (pad_loop-replicate fuel longer size (omega (arith, len))
          ∙ append_assoc next (no_constraint ∷ []) (replicate (size - length longer) no_constraint))
  | inr done ↦
      let none_left : size - length next ≡ 0 = ground arith in
      rw (done, none_left) (sym (append-nil next))
]

-- `padConstraints` keeps what it is given and fills up to `size`; a longer list is unchanged.
pub pad_constraints-replicate :
    (cs : List Constraint) (size : ℕ)
    → pad_constraints cs size ≡ cs ++ replicate (size - length cs) no_constraint
unfolding pad_constraints
pad_constraints-replicate cs size = pad_loop-replicate size cs size (omega arith)

-- The normal form, when there is one.
pub record IsNormalOf (p q : Policy) : Type 0 where
  pub type_kept : q.credential_type ≡ p.credential_type
  pub padded : q.constraints ≡ p.constraints ++ replicate (8 - length p.constraints) no_constraint
  pub full : length q.constraints ≡ 8

-- A policy with at most eight constraints gets its normal form; any other is refused.
pub normalize_policy_lem :
    (p : Policy)
    → (length p.constraints ≤ 8 → (q : Policy) × (normalize_policy p ≡ ok q) × IsNormalOf p q)
      × (8 < length p.constraints → normalize_policy p ≡ err too_many_constraints)
unfolding normalize_policy
normalize_policy_lem p = (
  λ h.
      let padded = pad_constraints-replicate p.constraints 8 in
      (
        record p { constraints = pad_constraints p.constraints 8 },
        rw (le→ltb 8 (length p.constraints) h),
        record {
          type_kept = refl;
          padded = padded;
          full =
              ap length padded
              ∙ omega (
                arith,
                length-append p.constraints (replicate (8 - length p.constraints) no_constraint),
                length-replicate (8 - length p.constraints) no_constraint,
              );
        },
      ),
  λ h. rw (lt→ltb 8 (length p.constraints) h),
)

pub normalize_policy-IsNormalOf : (p q : Policy) → normalize_policy p ≡ ok q → IsNormalOf p q
normalize_policy-IsNormalOf p q e = elim (Bool-cases (ltb 8 (length p.constraints))) [
  | inl over ↦ absurd (cc ((normalize_policy_lem p).1 (ltb→lt _ _ over)))
  | inr fits ↦
      let (q', e', is) = (normalize_policy_lem p).0 (ground arith) in
      let same : q' ≡ q = cc in subst (IsNormalOf p) same is
]

-- A normal form is its own normal form, and the numbers of a well-typed policy stay in their enums.
pub normalize_policy_idempotent :
    (p q : Policy)
    → normalize_policy p ≡ ok q
    → (normalize_policy q ≡ ok q) × (IsPolicy p → IsPolicy q)
normalize_policy_idempotent p q e =
    let is = normalize_policy-IsNormalOf p q e in
    let (q', e', again) = (normalize_policy_lem q).0 (omega (arith, is.full)) in
    let nothing_to_add : 8 - length q.constraints ≡ 0 = omega (arith, is.full) in
    let same_list : q'.constraints ≡ q.constraints =
      again.padded ∙ rw nothing_to_add (append-nil q.constraints) in
    let same : q' ≡ q =
      λ i. record { credential_type = again.type_kept i; constraints = same_list i } in
    (
      e' ∙ ap ok same,
      λ typed. record {
        credential_type = rw is.type_kept typed.credential_type;
        constraints = rw is.padded (
            All-append IsConstraint p.constraints _ typed.constraints (
              All-replicate IsConstraint (8 - length p.constraints) no_constraint
                (record { claim_id = omega arith; op = omega arith })));
      },
    )
