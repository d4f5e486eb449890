-- ===== src/Core/PolicyHash.antt =====
-- packages/magna-core/src/policy-hash.ts: the hash that binds a request to a policy. SHA-256 of a text's
-- UTF-8 bytes is a parameter.
pub mod Binding
mod Examples
use magna_monorepo.Base.{
  ℕ, List, [], ◌∷◌, ◌++◌, Option, none, some, Result, ok, err, ◌>>=◌, map_err,
}
use magna_monorepo.Base.Texts.{codes}
use magna_monorepo.Core.Bytes.{bytes_to_hex, to_string_radix}
use magna_monorepo.Core.Policy.{Constraint, Policy, PolicyError, normalize_policy}
use magna_monorepo.Core.ConnectorProtocol.Wire.{bigint_to_string}

pub data PolicyHashError : Type 0 where
  bad_policy : PolicyError → PolicyHashError
  no_web_crypto : PolicyHashError

-- The JSON of a constraint, in front of the text that follows it. A code of an enum is printed in
-- decimal, and the value is a string of an optional sign and digits, with nothing to escape.
unfoldable pub constraint_json : Constraint → List ℕ → List ℕ
unfolding to_string_radix bigint_to_string
constraint_json c rest =
    codes "{\"claimId\":"
    ++ (to_string_radix 10 c.claim_id
        ++ (codes ",\"op\":"
            ++ (to_string_radix 10 c.op
                ++ (codes ",\"value\":\"" ++ (bigint_to_string c.value ++ (codes "\"}" ++ rest))))))

-- The constraints behind the first, each after a comma.
unfoldable pub more_constraints_json : List Constraint → List ℕ → List ℕ
unfolding constraint_json
more_constraints_json [] rest = rest
more_constraints_json (c ∷ cs) rest = codes "," ++ constraint_json c (more_constraints_json cs rest)

unfoldable pub constraints_json : List Constraint → List ℕ → List ℕ
unfolding constraint_json more_constraints_json
constraints_json [] rest = rest
constraints_json (c ∷ cs) rest = constraint_json c (more_constraints_json cs rest)

-- `JSON.stringify` of a normalized policy.
unfoldable pub canonical_json : Policy → List ℕ
unfolding constraints_json to_string_radix
canonical_json policy =
    codes "{\"v\":1,\"credentialType\":"
    ++ (to_string_radix 10 policy.credential_type
        ++ (codes ",\"constraints\":[" ++ constraints_json policy.constraints (codes "]}")))

-- `none` is a runtime without `crypto.subtle`.
module _ (digest : Option (List ℕ → List ℕ)) where
  abbrev pub if_subtle : Option (List ℕ → List ℕ) → List ℕ → Result PolicyHashError (List ℕ)
  if_subtle none canonical = err no_web_crypto
  if_subtle (some sha256) canonical = ok (codes "0x" ++ bytes_to_hex (sha256 canonical))

  unfoldable pub compute_policy_hash : Policy → Result PolicyHashError (List ℕ)
  unfolding normalize_policy canonical_json bytes_to_hex
  compute_policy_hash policy = do
    normalized ← map_err bad_policy (normalize_policy policy)
    if_subtle digest (canonical_json normalized)
