-- ===== src/ChainState/Examples.antt =====
-- The theorems on the readers at two notes, with a sum for the hash.
use magna_monorepo.Base.{
  ℕ, ◌+◌, ◌≡◌, refl, Bool, false, List, [], ◌∷◌, Option, none, some, ok, ◌==◌, ◌⊎◌,
}
use magna_monorepo.Base.Numbers.{ℤ, pos, negsuc}
use magna_monorepo.Base.Texts.{codes}
use magna_monorepo.Core.Values.{integer}
use magna_monorepo.Core.BigInts.{parse_bigint}
use magna_monorepo.ChainState.Notes.{
  is_safe_integer, NoteValue, bigint, number, string, object, no_more, field,
}
use magna_monorepo.ChainState.Readers.{
  active, inactive, chain_valid, root_owner_revoked, CredentialChainState, PassportHints, RootHints,
  ChainNode, text, read_root_status_chain_state, read_rooted_credential_chain_state,
  read_instagram_credential_chain_state,
}
use magna_monorepo.ChainState.Rooted.{IsRootedState, read_rooted_credential_chain_state_sound}
use magna_monorepo.ChainState.Instagram.{
  IsInstagramState, read_instagram_credential_chain_state_sound,
}
use magna_monorepo.ChainState.Agreement.{read_root_status_chain_state-agrees, is_root_reason}

-- A hash for the examples: the sum of the values and the separator.
abbrev sum_hash : List ℤ → ℕ → Option ℤ
sum_hash [] ds = some (pos ds)
sum_hash (pos n ∷ values) ds = sum_hash values (ds + n)
sum_hash (negsuc n ∷ values) ds = none

abbrev an_address : List ℕ → Option ℤ
an_address s = some (pos 5)

-- A note of the root 7 and the claims 9, with this secret, type and expiry.
abbrev a_note : ℕ → ℕ → NoteValue
a_note secret kind = object none (
    field (codes "note")
      (object none (
        field (codes "root_commitment") (string (codes "7")) (
          field (codes "claims_hash") (object (some (pos 9)) no_more) (
            field (codes "credential_type") (number (integer (pos kind))) (
              field (codes "revocation_secret") (bigint (pos secret)) (
                field (codes "expiry_ts")
                  (object none (field (codes "value") (string (codes "0x100")) no_more))
                  (field (codes "authority_expiry_ts") (bigint (pos 300)) no_more)))))))
      no_more)

abbrev hints : ℕ → ℕ → PassportHints
hints secret kind = record {
  claims_hash = codes " 9 ";
  hinted_credential_note = a_note secret kind;
  hinted_status_note = a_note secret kind;
}

abbrev root_hints : RootHints
root_hints = record { root_commitment = codes "0x7"; hinted_root_status_note = a_note 2 1 }

-- Block 4 at the time 200, with these nullifiers in its tree.
abbrev node : (ℕ → ℤ → Bool) → ChainNode
node spent = record { block_number = 4; block_timestamp = λ _. some 200; has_nullifier = spent }

abbrev nothing : ℕ → ℤ → Bool
nothing block n = false

abbrev is_owner_nullifier : ℤ → Bool
is_owner_nullifier (pos n) = n == 0x4d415257 + 2 + 7 + 5 + 1
is_owner_nullifier (negsuc n) = false

abbrev live : CredentialChainState
live = record {
  status = active;
  reason = chain_valid;
  checked_at_block = 4;
  checked_at_timestamp = codes "200";
}

abbrev revoked : CredentialChainState
revoked = record {
  status = inactive;
  reason = root_owner_revoked;
  checked_at_block = 4;
  checked_at_timestamp = codes "200";
}

rooted_is_live :
    read_rooted_credential_chain_state sum_hash 1 an_address
      (node nothing)
      (codes "0x5")
      (hints 3 1)
      root_hints
      (a_note 4 1)
    ≡ ok live
unfolding read_rooted_credential_chain_state parse_bigint is_safe_integer
rooted_is_live = refl

rooted_is_revoked :
    read_rooted_credential_chain_state sum_hash 1 an_address
      (node (λ _ n. is_owner_nullifier n))
      (codes "0x5")
      (hints 3 1)
      root_hints
      (a_note 4 1)
    ≡ ok revoked
unfolding read_rooted_credential_chain_state parse_bigint is_safe_integer
rooted_is_revoked = refl

read_rooted_credential_chain_state_sound_example :
    IsRootedState sum_hash 1 an_address
      (node nothing)
      (codes "0x5")
      (hints 3 1)
      root_hints
      (a_note 4 1)
      live
read_rooted_credential_chain_state_sound_example =
    read_rooted_credential_chain_state_sound sum_hash 1 an_address (node nothing) (codes "0x5")
      (hints 3 1) root_hints (a_note 4 1) live rooted_is_live

read_root_status_chain_state-agrees_example :
    (root : CredentialChainState) × (read_root_status_chain_state sum_hash 1 an_address
        (node (λ _ n. is_owner_nullifier n))
        (codes "0x5")
        (text (codes "0x7"))
        (a_note 2 1)
      ≡ ok root)
    × (((root.status ≡ active) × (is_root_reason root_owner_revoked ≡ false)) ⊎ (root ≡ revoked))
read_root_status_chain_state-agrees_example =
    read_root_status_chain_state-agrees sum_hash 1 an_address (node (λ _ n. is_owner_nullifier n))
      (codes "0x5") (hints 3 1) root_hints (a_note 4 1) revoked rooted_is_revoked

-- The secret of the status is the one that the root's secret 2 derives: 2 + 3 + 9 and the separator.
instagram_is_live :
    read_instagram_credential_chain_state sum_hash 1 an_address
      (node nothing)
      (codes "0x5")
      (hints (0x4d414c53 + 14) 3)
      (some root_hints)
    ≡ ok live
unfolding read_instagram_credential_chain_state parse_bigint is_safe_integer
instagram_is_live = refl

read_instagram_credential_chain_state_sound_example :
    IsInstagramState sum_hash 1 an_address
      (node nothing)
      (codes "0x5")
      (hints (0x4d414c53 + 14) 3)
      (some root_hints)
      live
read_instagram_credential_chain_state_sound_example =
    read_instagram_credential_chain_state_sound sum_hash 1 an_address (node nothing) (codes "0x5")
      (hints (0x4d414c53 + 14) 3) (some root_hints) live instagram_is_live
