-- ===== src/ClaimHashes/Examples.antt =====
-- The theorem on committed claims at two witnesses that a sum does not tell apart, and some runs.
use magna_monorepo.Base.{ℕ, ◌+◌, ◌≡◌, refl, List, [], ◌∷◌, ok, err, none, ◌⊎◌}
use magna_monorepo.Base.Numbers.{ℤ, pos, negsuc}
use magna_monorepo.Base.Texts.{codes}
use magna_monorepo.Core.Values.{integer}
use magna_monorepo.Core.ConnectorProtocol.{is_digit}
use magna_monorepo.ClaimHashes.{
  bad_identifier, PassportCommittedClaimsWitness, pack_alpha3, field_text,
  parse_unique_identifier_field, compute_passport_committed_claims_hash_from_witness,
  derive_root_commitment,
}
use magna_monorepo.ClaimHashes.Binding.{
  Collision, compute_passport_committed_claims_hash_from_witness-binds,
}

abbrev sum_hash : ℕ → List ℤ → ℕ
sum_hash ds [] = ds
sum_hash ds (pos n ∷ values) = sum_hash (ds + n) values
sum_hash ds (negsuc n ∷ values) = sum_hash ds values

abbrev witness_of : ℕ → ℕ → PassportCommittedClaimsWitness
witness_of nationality blind = record {
  min_age_proven = integer (pos 18);
  nationality_alpha3_packed = pos nationality;
  nationality_blind = pos blind;
  expiry_ts = pos 100;
  expiry_blind = pos 3;
}

pack_alpha3-tur : pack_alpha3 (codes "TUR") ≡ ok (pos 0x545552)
unfolding pack_alpha3
pack_alpha3-tur = refl

identifier_in_hex : parse_unique_identifier_field (field_text (codes "0xFf")) ≡ ok (pos 255)
unfolding parse_unique_identifier_field
identifier_in_hex = refl

identifier_with_sign : parse_unique_identifier_field (field_text (codes "-1")) ≡ err bad_identifier
unfolding parse_unique_identifier_field is_digit
identifier_with_sign = refl

root_of_identifier :
    derive_root_commitment sum_hash (field_text (codes "12")) none ≡ ok (0x4d414749 + 12)
unfolding derive_root_commitment is_digit
root_of_identifier = refl

compute_passport_committed_claims_hash_from_witness-binds_example :
    (witness_of 10 5 ≡ witness_of 9 6) ⊎ Collision sum_hash
unfolding compute_passport_committed_claims_hash_from_witness
compute_passport_committed_claims_hash_from_witness-binds_example =
    compute_passport_committed_claims_hash_from_witness-binds sum_hash (witness_of 10 5)
      (witness_of 9 6) (0x4d414743 + 2 + 1 + (0x4d414e43 + 15) + 18 + (0x4d414558 + 103)) refl refl
