-- ===== src/Core/PolicyHash/Examples.antt =====
-- The theorem on policy hashes under a digest that tells nothing apart, and one canonical text.
use magna_monorepo.Base.{ℕ, ◌≡◌, refl, List, [], ◌∷◌, ok, ◌⊎◌, arith}
use magna_monorepo.Base.Numbers.{pos, negsuc}
use magna_monorepo.Base.Texts.{codes}
use magna_monorepo.Core.Policy.{Policy, normalize_policy}
use magna_monorepo.Core.PolicyHash.{canonical_json, compute_policy_hash}
use magna_monorepo.Core.PolicyHash.Binding.{DigestCollision, compute_policy_hash-binds}

abbrev with_age : ℕ → Policy
with_age age = record {
  credential_type = 1;
  constraints = record { claim_id = 1; op = 3; value = pos age } ∷ [];
}

canonical_json-below_zero :
    canonical_json (record {
      credential_type = 1;
      constraints = record { claim_id = 1; op = 3; value = negsuc 17 } ∷ [];
    })
    ≡ codes
        "{\"v\":1,\"credentialType\":1,\"constraints\":[{\"claimId\":1,\"op\":3,\"value\":\"-18\"}]}"
unfolding canonical_json
canonical_json-below_zero = refl

abbrev seven : List ℕ → List ℕ
seven s = 7 ∷ []

compute_policy_hash-binds_example :
    ((n : Policy) × (normalize_policy (with_age 18) ≡ ok n)
      × (normalize_policy (with_age 21) ≡ ok n))
    ⊎ DigestCollision seven
unfolding compute_policy_hash
compute_policy_hash-binds_example =
    compute_policy_hash-binds seven (with_age 18) (with_age 21) (codes "0x07")
      (λ s. (omega arith, tt)) refl refl
