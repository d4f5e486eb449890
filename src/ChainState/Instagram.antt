-- ===== src/ChainState/Instagram.antt =====
-- What a status of an Instagram credential means.
use magna_monorepo.Base.{
  ℕ, ◌≡◌, refl, sym, subst, Bool, true, false, ◌||◌, not, List, [], ◌∷◌, Option, none, some, ok,
  throw_if, >>=-eq-ok, ok_injective, Bool-cases, inl, inr,
}
use magna_monorepo.Base.Numbers.{ℤ, pos, int_eq}
use magna_monorepo.Base.Texts.{codes}
use magna_monorepo.ChainState.Notes.{
  Fields, note_record, or_throw, field_value, assert_field, big_int, block_unavailable,
  missing_root_metadata, has_field,
}
use magna_monorepo.ChainState.Readers.{
  Status, active, inactive, expired, Reason, chain_valid, linked_credential_revoked,
  credential_revoked, root_owner_revoked, root_version_mismatch, root_lineage_revoked_or_recovered,
  root_authority_superseded, credential_expired, root_authority_expired, CredentialChainState,
  PassportHints, RootHints, ChainNode, is_past, state_at, instagram_verdict, siloed, instagram_root,
  instagram_outcome, derive_linked_instagram_status_secret, read_instagram_credential_chain_state,
  revocation_ds, root_revocation_ds, root_owner_revocation_ds,
}
use magna_monorepo.ChainState.Reads.{assert_field_iff, or_throw_sound, IsNullifier}
use magna_monorepo.ChainState.Rooted.{
  Expiry, HasPassed, Outlives, is_past-HasPassed, is_past-Outlives,
}

-- A note of an Instagram credential with these claims.
pub record IsInstagram (note : Fields) (claims : ℤ) : Type 0 where
  pub claims_is : field_value note (codes "claims_hash") ≡ ok claims
  pub type_is : field_value note (codes "credential_type") ≡ ok (pos 3)

-- Why an Instagram credential has its status.
abbrev pub IsJustifiedInstagram :
    Bool → Bool → Bool → Bool → Bool → Fields → ℕ → Reason → Status → Type 0
IsJustifiedInstagram own lineage owner mismatch linked credential t
      root_lineage_revoked_or_recovered s =
    (s ≡ inactive) × (lineage ≡ true)
IsJustifiedInstagram own lineage owner mismatch linked credential t root_owner_revoked s =
    (s ≡ inactive) × (lineage ≡ false) × (owner ≡ true)
IsJustifiedInstagram own lineage owner mismatch linked credential t root_version_mismatch s =
    (s ≡ inactive) × (lineage ≡ false) × (owner ≡ false) × (mismatch ≡ true)
IsJustifiedInstagram own lineage owner mismatch linked credential t linked_credential_revoked s =
    (s ≡ inactive)
    × (lineage ≡ false)
    × (owner ≡ false)
    × (mismatch ≡ false)
    × (own ≡ true)
    × (linked ≡ true)
IsJustifiedInstagram own lineage owner mismatch linked credential t credential_revoked s =
    (s ≡ inactive)
    × (lineage ≡ false)
    × (owner ≡ false)
    × (mismatch ≡ false)
    × (own ≡ true)
    × (linked ≡ false)
IsJustifiedInstagram own lineage owner mismatch linked credential t credential_expired s =
    (s ≡ expired)
    × (lineage ≡ false)
    × (owner ≡ false)
    × (mismatch ≡ false)
    × (own ≡ false)
    × Expiry HasPassed credential (codes "expiry_ts") t
IsJustifiedInstagram own lineage owner mismatch linked credential t chain_valid s =
    (s ≡ active)
    × (lineage ≡ false)
    × (owner ≡ false)
    × (mismatch ≡ false)
    × (own ≡ false)
    × Expiry Outlives credential (codes "expiry_ts") t
IsJustifiedInstagram own lineage owner mismatch linked credential t root_authority_superseded s = ⊥
IsJustifiedInstagram own lineage owner mismatch linked credential t root_authority_expired s = ⊥

-- The reason why a verdict was reached holds.
abbrev pub Justifies : Bool → Bool → Bool → Bool → Bool → Fields → ℕ → Status × Reason → Type 0
Justifies own lineage owner mismatch linked credential t v =
    IsJustifiedInstagram own lineage owner mismatch linked credential t v.1 v.0

instagram_expiry_sound :
    (linked : Bool) (credential : Fields) (t : ℕ) (v : Status × Reason)
    → instagram_verdict false false false false linked credential t ≡ ok v
    → Justifies false false false false linked credential t v
unfolding instagram_verdict
instagram_expiry_sound linked credential t v h =
    let (e, is, k) = >>=-eq-ok (field_value credential (codes "expiry_ts")) _ h in
    elim (Bool-cases (is_past e t)) [
      | inl past ↦
          let same : (expired, credential_expired) ≡ v = ok_injective (rw past at k) in
          subst (Justifies false false false false linked credential t) same
            (refl, refl, refl, refl, refl, (e, is, is_past-HasPassed e t past))
      | inr future ↦
          let same : (active, chain_valid) ≡ v = ok_injective (rw future at k) in
          subst (Justifies false false false false linked credential t) same
            (refl, refl, refl, refl, refl, (e, is, is_past-Outlives e t future))
    ]

instagram_verdict_sound :
    (own lineage owner mismatch linked : Bool) (credential : Fields) (t : ℕ) (v : Status × Reason)
    → instagram_verdict own lineage owner mismatch linked credential t ≡ ok v
    → Justifies own lineage owner mismatch linked credential t v
unfolding instagram_verdict
instagram_verdict_sound own true owner mismatch linked credential t v h =
    subst (Justifies own true owner mismatch linked credential t) (ok_injective h) (refl, refl)
instagram_verdict_sound own false true mismatch linked credential t v h =
    subst (Justifies own false true mismatch linked credential t) (ok_injective h)
      (refl, refl, refl)
instagram_verdict_sound own false false true linked credential t v h =
    subst (Justifies own false false true linked credential t) (ok_injective h)
      (refl, refl, refl, refl)
instagram_verdict_sound true false false false true credential t v h =
    subst (Justifies true false false false true credential t) (ok_injective h)
      (refl, refl, refl, refl, refl, refl)
instagram_verdict_sound true false false false false credential t v h =
    subst (Justifies true false false false false credential t) (ok_injective h)
      (refl, refl, refl, refl, refl, refl)
instagram_verdict_sound false false false false linked credential t v h =
    instagram_expiry_sound linked credential t v h

module _ (hash : List ℤ → ℕ → Option ℤ) (siloed_nullifier : ℕ)
    (to_address : List ℕ → Option ℤ) where
  -- What was read of the root of a linked credential.
  pub record IsInstagramRoot (issuer : List ℕ) (credential status : Fields) (claims secret : ℤ)
      (hints : RootHints) (mismatch : Bool) (lineage owner : ℤ) : Type 0 where
    pub root : ℤ
    pub root_status : Fields
    pub root_secret : ℤ
    pub derived : ℤ
    pub root_is : big_int hints.root_commitment ≡ ok root
    pub root_status_is : note_record hints.hinted_root_status_note ≡ ok root_status
    pub credential_root : field_value credential (codes "root_commitment") ≡ ok root
    pub status_root : field_value status (codes "root_commitment") ≡ ok root
    pub root_status_root : field_value root_status (codes "root_commitment") ≡ ok root
    pub root_secret_is : field_value root_status (codes "revocation_secret") ≡ ok root_secret
    pub derived_is :
        derive_linked_instagram_status_secret hash siloed_nullifier to_address root_secret claims
        ≡ ok derived
    pub mismatch_is : mismatch ≡ not (int_eq derived secret)
    pub lineage_is :
        IsNullifier hash siloed_nullifier to_address issuer
          (root_secret ∷ root ∷ [])
          root_revocation_ds
          lineage
    pub owner_is :
        IsNullifier hash siloed_nullifier to_address issuer
          (root_secret ∷ root ∷ [])
          root_owner_revocation_ds
          owner

  -- The same of what the reader found, which is nothing for a credential with no root.
  abbrev pub FoundRoot :
      List ℕ → Fields → Fields → ℤ → ℤ → Option RootHints → Option (Bool × ℤ × ℤ) → Type 0
  FoundRoot issuer credential status claims secret none none = Unit
  FoundRoot issuer credential status claims secret none (some _) = ⊥
  FoundRoot issuer credential status claims secret (some hints) none = ⊥
  FoundRoot issuer credential status claims secret (some hints) (some (mismatch, lineage, owner)) =
      IsInstagramRoot issuer credential status claims secret hints mismatch lineage owner

  instagram_root_sound :
      (issuer : List ℕ) (credential status : Fields) (claims secret : ℤ) (hints : RootHints)
      (found : Option (Bool × ℤ × ℤ))
      → instagram_root hash siloed_nullifier to_address issuer credential status claims secret
          (some hints)
        ≡ ok found
      → FoundRoot issuer credential status claims secret (some hints) found
  unfolding instagram_root
  instagram_root_sound issuer credential status claims secret hints found h =
      let (root, e₁, h₁) = >>=-eq-ok (big_int hints.root_commitment) _ h in
      let (root_status, e₂, h₂) = >>=-eq-ok (note_record hints.hinted_root_status_note) _ h₁ in
      let (_, a₁, h₃) = >>=-eq-ok (assert_field credential (codes "root_commitment") root) _ h₂ in
      let (_, a₂, h₄) = >>=-eq-ok (assert_field status (codes "root_commitment") root) _ h₃ in
      let (_, a₃, h₅) = >>=-eq-ok (assert_field root_status (codes "root_commitment") root) _ h₄ in
      let (root_secret, f, h₆) =
        >>=-eq-ok (field_value root_status (codes "revocation_secret")) _ h₅ in
      let (derived, d, h₇) =
        >>=-eq-ok
          (derive_linked_instagram_status_secret hash siloed_nullifier to_address root_secret
            claims)
          _ h₆ in
      let (lineage, n₁, h₈) =
        >>=-eq-ok
          (siloed hash siloed_nullifier to_address issuer (root_secret ∷ root ∷ [])
            root_revocation_ds)
          _ h₇ in
      let (owner, n₂, h₉) =
        >>=-eq-ok
          (siloed hash siloed_nullifier to_address issuer (root_secret ∷ root ∷ [])
            root_owner_revocation_ds)
          _ h₈ in
      subst (FoundRoot issuer credential status claims secret (some hints)) (ok_injective h₉)
        (record {
          root = root;
          root_status = root_status;
          root_secret = root_secret;
          derived = derived;
          root_is = e₁;
          root_status_is = e₂;
          credential_root = (assert_field_iff credential _ root).0 a₁;
          status_root = (assert_field_iff status _ root).0 a₂;
          root_status_root = (assert_field_iff root_status _ root).0 a₃;
          root_secret_is = f;
          derived_is = d;
          mismatch_is = refl;
          lineage_is = n₁;
          owner_is = n₂;
        })

  instagram_root-FoundRoot :
      (issuer : List ℕ) (credential status : Fields) (claims secret : ℤ) (hints : Option RootHints)
      (found : Option (Bool × ℤ × ℤ))
      → instagram_root hash siloed_nullifier to_address issuer credential status claims secret hints
        ≡ ok found
      → FoundRoot issuer credential status claims secret hints found
  unfolding instagram_root
  instagram_root-FoundRoot issuer credential status claims secret none found h =
      let (_, _, k) =
        >>=-eq-ok
          (throw_if
            (has_field (codes "root_commitment") credential
              || has_field (codes "root_commitment") status)
            missing_root_metadata)
          _ h in
      subst (FoundRoot issuer credential status claims secret none) (ok_injective k) tt
  instagram_root-FoundRoot issuer credential status claims secret (some hints) found h =
      instagram_root_sound issuer credential status claims secret hints found h

  -- The reason holds of the nullifiers that were found.
  abbrev pub OutcomeHolds :
      ChainNode → ℤ → Fields → ℕ → Option (Bool × ℤ × ℤ) → Status × Reason → Type 0
  OutcomeHolds node own credential t none v =
      Justifies (node.has_nullifier node.block_number own) false false false false credential t v
  OutcomeHolds node own credential t (some (mismatch, lineage, owner)) v =
      Justifies (node.has_nullifier node.block_number own)
        (node.has_nullifier node.block_number lineage) (node.has_nullifier node.block_number owner)
        mismatch true credential t v

  instagram_outcome_sound :
      (node : ChainNode) (own : ℤ) (credential : Fields) (t : ℕ) (found : Option (Bool × ℤ × ℤ))
      (v : Status × Reason)
      → instagram_outcome hash siloed_nullifier to_address node own credential t found ≡ ok v
      → OutcomeHolds node own credential t found v
  instagram_outcome_sound node own credential t none v h =
      instagram_verdict_sound _ _ _ _ _ credential t v h
  instagram_outcome_sound node own credential t (some (mismatch, lineage, owner)) v h =
      instagram_verdict_sound _ _ _ _ _ credential t v h

  -- What a state of an Instagram credential promises.
  pub record IsInstagramState (node : ChainNode) (issuer : List ℕ) (hints : PassportHints)
      (root_hints : Option RootHints) (st : CredentialChainState) : Type 0 where
    pub credential : Fields
    pub status : Fields
    pub claims : ℤ
    pub secret : ℤ
    pub own : ℤ
    pub found : Option (Bool × ℤ × ℤ)
    pub timestamp : ℕ
    pub verdict : Status × Reason
    pub credential_is : note_record hints.hinted_credential_note ≡ ok credential
    pub status_is : note_record hints.hinted_status_note ≡ ok status
    pub claims_is : big_int hints.claims_hash ≡ ok claims
    pub credential_ours : IsInstagram credential claims
    pub status_ours : IsInstagram status claims
    pub secret_is : field_value status (codes "revocation_secret") ≡ ok secret
    pub own_is :
        IsNullifier hash siloed_nullifier to_address issuer
          (secret ∷ pos 3 ∷ claims ∷ [])
          revocation_ds
          own
    pub root_found : FoundRoot issuer credential status claims secret root_hints found
    pub timestamp_is : node.block_timestamp node.block_number ≡ some timestamp
    pub outcome : OutcomeHolds node own credential timestamp found verdict
    pub state_is : st ≡ state_at node timestamp verdict

  -- An Instagram credential gets the status and the reason that hold at the block that was read: it is
  -- active only if both notes carry the claims and the type of an Instagram credential, its nullifier is
  -- not in the tree, its expiry is later than the block's time and, for a linked credential, the notes
  -- name the root, its secret derives the status secret, and neither kill switch of the root is in the
  -- tree. Of several reasons the first in the order lineage, owner, version, revocation, expiry is given.
  pub read_instagram_credential_chain_state_sound :
      (node : ChainNode) (issuer : List ℕ) (hints : PassportHints) (root_hints : Option RootHints)
      (st : CredentialChainState)
      → read_instagram_credential_chain_state hash siloed_nullifier to_address node issuer hints
          root_hints
        ≡ ok st
      → IsInstagramState node issuer hints root_hints st
  unfolding read_instagram_credential_chain_state
  read_instagram_credential_chain_state_sound node issuer hints root_hints st h =
      let (credential, e₁, h₁) = >>=-eq-ok (note_record hints.hinted_credential_note) _ h in
      let (status, e₂, h₂) = >>=-eq-ok (note_record hints.hinted_status_note) _ h₁ in
      let (claims, e₃, h₃) = >>=-eq-ok (big_int hints.claims_hash) _ h₂ in
      let (_, a₁, h₄) = >>=-eq-ok (assert_field credential (codes "claims_hash") claims) _ h₃ in
      let (_, a₂, h₅) =
        >>=-eq-ok (assert_field credential (codes "credential_type") (pos 3)) _ h₄ in
      let (_, a₃, h₆) = >>=-eq-ok (assert_field status (codes "claims_hash") claims) _ h₅ in
      let (_, a₄, h₇) = >>=-eq-ok (assert_field status (codes "credential_type") (pos 3)) _ h₆ in
      let (secret, f, h₈) = >>=-eq-ok (field_value status (codes "revocation_secret")) _ h₇ in
      let (own, n, h₉) =
        >>=-eq-ok
          (siloed hash siloed_nullifier to_address issuer (secret ∷ pos 3 ∷ claims ∷ [])
            revocation_ds)
          _ h₈ in
      let (found, r, k₁) =
        >>=-eq-ok
          (instagram_root hash siloed_nullifier to_address issuer credential status claims secret
            root_hints)
          _ h₉ in
      let (timestamp, t, k₂) =
        >>=-eq-ok (or_throw block_unavailable (node.block_timestamp node.block_number)) _ k₁ in
      let (verdict, v, k₃) =
        >>=-eq-ok
          (instagram_outcome hash siloed_nullifier to_address node own credential timestamp found) _
          k₂ in
      record {
        credential = credential;
        status = status;
        claims = claims;
        secret = secret;
        own = own;
        found = found;
        timestamp = timestamp;
        verdict = verdict;
        credential_is = e₁;
        status_is = e₂;
        claims_is = e₃;
        credential_ours = record {
          claims_is = (assert_field_iff credential _ claims).0 a₁;
          type_is = (assert_field_iff credential _ (pos 3)).0 a₂;
        };
        status_ours = record {
          claims_is = (assert_field_iff status _ claims).0 a₃;
          type_is = (assert_field_iff status _ (pos 3)).0 a₄;
        };
        secret_is = f;
        own_is = n;
        root_found =
            instagram_root-FoundRoot issuer credential status claims secret root_hints found r;
        timestamp_is = or_throw_sound _ _ timestamp t;
        outcome = instagram_outcome_sound node own credential timestamp found verdict v;
        state_is = sym (ok_injective k₃);
      }
