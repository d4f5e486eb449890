-- ===== src/Core/PolicyHash/Binding.antt =====
-- The canonical text determines the policy, and the hash binds it.
use magna_monorepo.Base.{
  ℕ, ◌+◌, ◌≡◌, ◌≢◌, refl, sym, ap, ◌∙◌, subst, Bool, true, false, not, List, [], ◌∷◌, ◌++◌, some,
  ok, >>=-eq-ok, ok_injective, map_err, map_err-ok, ◌==◌, length, all, All, arith, ◌⊎◌, inl, inr,
  Bool-cases,
}
use magna_monorepo.Base.Numbers.{ℤ, pos, negsuc, IsByte}
use magna_monorepo.Base.Texts.{codes, text_eq, text_eq_iff}
use magna_monorepo.Core.Bytes.{bytes_to_hex, to_string_radix, parse_pairs}
use magna_monorepo.Core.Bytes.RoundTrip.{parse_pairs-bytes_to_hex}
use magna_monorepo.Core.Policy.{Constraint, Policy, normalize_policy}
use magna_monorepo.Core.Policy.Normal.{normalize_policy-IsNormalOf}
use magna_monorepo.Core.ConnectorProtocol.{is_digit}
use magna_monorepo.Core.ConnectorProtocol.Decimal.{parse_decimal-to_string, all_digits-to_string}
use magna_monorepo.Core.ConnectorProtocol.Wire.{bigint_to_string, parse_decimal}
use magna_monorepo.Core.PolicyHash.{
  bad_policy, constraint_json, more_constraints_json, constraints_json, canonical_json,
  compute_policy_hash,
}

cancel : (p x y : List ℕ) → p ++ x ≡ p ++ y → x ≡ y
cancel [] x y h = h
cancel (c ∷ p) x y h = cancel p x y cc

-- Texts of characters that pass a test end at the first that does not.
until_mark :
    (test : ℕ → Bool) (ds es x y : List ℕ) (c : ℕ)
    → all test ds ≡ true
    → all test es ≡ true
    → test c ≡ false
    → ds ++ (c ∷ x) ≡ es ++ (c ∷ y)
    → (ds ≡ es) × (x ≡ y)
until_mark test [] [] x y c h k mark e = (refl, cc)
until_mark test [] (b ∷ es) x y c h k mark e =
    let same : c ≡ b = cc in
    let passes : test b ≡ true = ground arith in
    let fails : test b ≡ false = subst (λ (z : ℕ). test z ≡ false) same mark in absurd cc
until_mark test (a ∷ ds) [] x y c h k mark e =
    let same : c ≡ a = cc in
    let passes : test a ≡ true = ground arith in
    let fails : test a ≡ false = subst (λ (z : ℕ). test z ≡ false) same mark in absurd cc
until_mark test (a ∷ ds) (b ∷ es) x y c h k mark e =
    let same : a ≡ b = cc in
    let rest : ds ++ (c ∷ x) ≡ es ++ (c ∷ y) = cc in
    let (heads, tails) = until_mark test ds es x y c (ground arith) (ground arith) mark rest in
    (cc, tails)

number_before :
    (m n : ℕ) (x y : List ℕ) (c : ℕ)
    → is_digit c ≡ false
    → to_string_radix 10 m ++ (c ∷ x) ≡ to_string_radix 10 n ++ (c ∷ y)
    → (m ≡ n) × (x ≡ y)
number_before m n x y c mark e =
    let (same, rest) =
      until_mark is_digit (to_string_radix 10 m) (to_string_radix 10 n) x y c
        (all_digits-to_string m) (all_digits-to_string n) mark e in
    (sym (parse_decimal-to_string m) ∙ ap parse_decimal same ∙ parse_decimal-to_string n, rest)

-- Any character but a quotation mark.
abbrev is_plain : ℕ → Bool
is_plain c = not (c == b'"')

plain_of_digits : (s : List ℕ) → all is_digit s ≡ true → all is_plain s ≡ true
unfolding is_digit
plain_of_digits [] h = refl
plain_of_digits (c ∷ s) h = ground (arith, plain_of_digits s)

all_plain-bigint_to_string : (v : ℤ) → all is_plain (bigint_to_string v) ≡ true
unfolding bigint_to_string
all_plain-bigint_to_string (pos n) = plain_of_digits (to_string_radix 10 n) (all_digits-to_string n)
all_plain-bigint_to_string (negsuc n) =
    plain_of_digits (to_string_radix 10 (n + 1)) (all_digits-to_string (n + 1))

no_sign : (m n : ℕ) → ◌≢◌ {A = List ℕ} (to_string_radix 10 m) (b'-' ∷ to_string_radix 10 n)
unfolding is_digit
no_sign m n e =
    let digits : all is_digit (b'-' ∷ to_string_radix 10 n) ≡ true =
      subst (λ (s : List ℕ). all is_digit s ≡ true) e (all_digits-to_string m) in
    cc

same_print : (m n : ℕ) → to_string_radix 10 m ≡ to_string_radix 10 n → m ≡ n
same_print m n e = sym (parse_decimal-to_string m) ∙ ap parse_decimal e ∙ parse_decimal-to_string n

pub bigint_to_string-injective : (v w : ℤ) → bigint_to_string v ≡ bigint_to_string w → v ≡ w
unfolding bigint_to_string
bigint_to_string-injective (pos m) (pos n) e = ap pos (same_print m n e)
bigint_to_string-injective (negsuc m) (negsuc n) e =
    let same : m + 1 ≡ n + 1 = same_print (m + 1) (n + 1) cc in ap negsuc (omega arith)
bigint_to_string-injective (pos m) (negsuc n) e = absurd (no_sign m (n + 1) e)
bigint_to_string-injective (negsuc m) (pos n) e = absurd (no_sign n (m + 1) (sym e))

constraint_eq :
    (c d : Constraint) → c.claim_id ≡ d.claim_id → c.op ≡ d.op → c.value ≡ d.value → c ≡ d
constraint_eq c d e₁ e₂ e₃ = λ i. record { claim_id = e₁ i; op = e₂ i; value = e₃ i }

constraint_json-injective :
    (c d : Constraint) (x y : List ℕ)
    → constraint_json c x ≡ constraint_json d y
    → (c ≡ d) × (x ≡ y)
unfolding constraint_json
constraint_json-injective c d x y e =
    let (id, e₁) =
      number_before c.claim_id d.claim_id _ _ b',' (unfold is_digit in refl)
        (cancel (codes "{\"claimId\":") _ _ e) in
    let (op, e₂) =
      number_before c.op d.op _ _ b',' (unfold is_digit in refl)
        (cancel (codes "\"op\":") _ _ e₁) in
    let (value, e₃) =
      until_mark is_plain (bigint_to_string c.value) (bigint_to_string d.value) _ _ b'"'
        (all_plain-bigint_to_string c.value) (all_plain-bigint_to_string d.value) refl
        (cancel (codes "\"value\":\"") _ _ e₂) in
    (
      constraint_eq c d id op (bigint_to_string-injective c.value d.value value),
      cancel (codes "}") _ _ e₃,
    )

more_constraints_json-injective :
    (cs ds : List Constraint) (x y : List ℕ)
    → length cs ≡ length ds
    → more_constraints_json cs x ≡ more_constraints_json ds y
    → (cs ≡ ds) × (x ≡ y)
unfolding more_constraints_json
more_constraints_json-injective [] [] x y len e = (refl, e)
more_constraints_json-injective [] (d ∷ ds) x y len e = absurd (omega arith)
more_constraints_json-injective (c ∷ cs) [] x y len e = absurd (omega arith)
more_constraints_json-injective (c ∷ cs) (d ∷ ds) x y len e =
    let (same, rest) = constraint_json-injective c d _ _ (cancel (codes ",") _ _ e) in
    let (tails, ends) = more_constraints_json-injective cs ds x y (omega arith) rest in (cc, ends)

constraints_json-injective :
    (cs ds : List Constraint) (x y : List ℕ)
    → length cs ≡ length ds
    → constraints_json cs x ≡ constraints_json ds y
    → cs ≡ ds
unfolding constraints_json
constraints_json-injective [] [] x y len e = refl
constraints_json-injective [] (d ∷ ds) x y len e = absurd (omega arith)
constraints_json-injective (c ∷ cs) [] x y len e = absurd (omega arith)
constraints_json-injective (c ∷ cs) (d ∷ ds) x y len e =
    let (same, rest) = constraint_json-injective c d _ _ e in
    let (tails, _) = more_constraints_json-injective cs ds x y (omega arith) rest in cc

pub canonical_json-injective :
    (p q : Policy)
    → length p.constraints ≡ length q.constraints
    → canonical_json p ≡ canonical_json q
    → p ≡ q
unfolding canonical_json
canonical_json-injective p q len e =
    let (kind, e₁) =
      number_before p.credential_type q.credential_type _ _ b',' (unfold is_digit in refl)
        (cancel (codes "{\"v\":1,\"credentialType\":") _ _ e) in
    let same =
      constraints_json-injective p.constraints q.constraints _ _ len
        (cancel (codes "\"constraints\":[") _ _ e₁) in
    λ i. record { credential_type = kind i; constraints = same i }

bytes_to_hex-injective :
    (s t : List ℕ) → All IsByte s → All IsByte t → bytes_to_hex s ≡ bytes_to_hex t → s ≡ t
bytes_to_hex-injective s t h k e =
    sym (parse_pairs-bytes_to_hex s h) ∙ ap parse_pairs e ∙ parse_pairs-bytes_to_hex t k

module _ (sha256 : List ℕ → List ℕ) where
  -- Two texts that the digest does not tell apart.
  pub record DigestCollision : Type 0 where
    pub first : List ℕ
    pub second : List ℕ
    pub differ : first ≢ second
    pub collide : sha256 first ≡ sha256 second

  digest_binds : (s t : List ℕ) → sha256 s ≡ sha256 t → (s ≡ t) ⊎ DigestCollision
  digest_binds s t e = elim (Bool-cases (text_eq s t)) [
    | inl same ↦ inl ((text_eq_iff s t).0 same)
    | inr other ↦ inr (record {
      first = s;
      second = t;
      differ = λ is. let same = (text_eq_iff s t).1 is in cc;
      collide = e;
    })
  ]

  policy_hash_parts :
      (p : Policy) (h : List ℕ)
      → compute_policy_hash (some sha256) p ≡ ok h
      → (n : Policy) × (normalize_policy p ≡ ok n)
        × (codes "0x" ++ bytes_to_hex (sha256 (canonical_json n)) ≡ h)
  unfolding compute_policy_hash
  policy_hash_parts p h e =
      let (n, is, k) = >>=-eq-ok (map_err bad_policy (normalize_policy p)) _ e in
      (n, map_err-ok bad_policy (normalize_policy p) n is, ok_injective k)

  -- Two policies with the same hash have the same normal form, or else the digest has a collision, which
  -- is given.
  pub compute_policy_hash-binds :
      (p q : Policy) (h : List ℕ)
      → ((s : List ℕ) → All IsByte (sha256 s))
      → compute_policy_hash (some sha256) p ≡ ok h
      → compute_policy_hash (some sha256) q ≡ ok h
      → ((n : Policy) × (normalize_policy p ≡ ok n) × (normalize_policy q ≡ ok n)) ⊎ DigestCollision
  compute_policy_hash-binds p q h bytes e k =
      let (m, p_is, p_hash) = policy_hash_parts p h e in
      let (n, q_is, q_hash) = policy_hash_parts q h k in
      let digests =
        bytes_to_hex-injective _ _ (bytes (canonical_json m)) (bytes (canonical_json n))
          (cancel (codes "0x") _ _ (p_hash ∙ sym q_hash)) in
      elim (digest_binds (canonical_json m) (canonical_json n) digests) [
        | inr collision ↦ inr collision
        | inl texts ↦
            let len : length m.constraints ≡ length n.constraints =
              (normalize_policy-IsNormalOf p m p_is).full
              ∙ sym (normalize_policy-IsNormalOf q n q_is).full in
            let same = canonical_json-injective m n len texts in
            inl (m, p_is, subst (λ (r : Policy). normalize_policy q ≡ ok r) (sym same) q_is)
      ]
