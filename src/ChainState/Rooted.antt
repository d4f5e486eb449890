-- ===== src/ChainState/Rooted.antt =====
-- What a status of a rooted credential means.
use magna_monorepo.Base.{
  ℕ, ◌≤◌, ◌<◌, ◌≡◌, refl, sym, subst, Bool, true, false, List, Option, some, ok, >>=-eq-ok,
  ok_injective, Bool-cases, inl, inr, arith, leb→le,
}
use magna_monorepo.Base.Numbers.{ℤ, pos, negsuc}
use magna_monorepo.Base.Texts.{codes}
use magna_monorepo.Core.Bytes.{to_string_radix}
use magna_monorepo.ChainState.Notes.{NoteValue, Fields, field_value}
use magna_monorepo.ChainState.Readers.{
  Status, active, inactive, expired, Reason, chain_valid, linked_credential_revoked,
  credential_revoked, root_owner_revoked, root_version_mismatch, root_lineage_revoked_or_recovered,
  root_authority_superseded, credential_expired, root_authority_expired, CredentialChainState,
  PassportHints, RootHints, ChainNode, is_past, state_at, if_credential_expired, rooted_verdict,
  RootedNotes, RootedNullifiers, read_rooted_credential_chain_state,
}
use magna_monorepo.ChainState.Reads.{AreRootedNotes, AreRootedNullifiers, read_rooted-steps}

-- An expiry that the time has reached, and one that it has not.
abbrev pub HasPassed : ℤ → ℕ → Type 0
HasPassed (pos n) t = n ≤ t
HasPassed (negsuc n) t = Unit

abbrev pub Outlives : ℤ → ℕ → Type 0
Outlives (pos n) t = t < n
Outlives (negsuc n) t = ⊥

pub is_past-HasPassed : (e : ℤ) (t : ℕ) → is_past e t ≡ true → HasPassed e t
is_past-HasPassed (pos n) t h = leb→le n t h
is_past-HasPassed (negsuc n) t h = tt

pub is_past-Outlives : (e : ℤ) (t : ℕ) → is_past e t ≡ false → Outlives e t
is_past-Outlives (pos n) t h = ground arith
is_past-Outlives (negsuc n) t h = cc

-- A field of a note is an expiry of which this holds at a time.
abbrev pub Expiry : (ℤ → ℕ → Type 0) → Fields → List ℕ → ℕ → Type 0
Expiry P note key t = (e : ℤ) × (field_value note key ≡ ok e) × P e t

-- Why a rooted credential has its status: which of the nullifiers of the lineage, the owner, the
-- authority and the linked credential are in the tree, and which expiries the time has reached.
abbrev pub IsJustified : Bool → Bool → Bool → Bool → Fields → Fields → ℕ → Reason → Status → Type 0
IsJustified lineage owner auth linked credential authority t root_lineage_revoked_or_recovered s =
    (s ≡ inactive) × (lineage ≡ true)
IsJustified lineage owner auth linked credential authority t root_owner_revoked s =
    (s ≡ inactive) × (lineage ≡ false) × (owner ≡ true)
IsJustified lineage owner auth linked credential authority t root_authority_superseded s =
    (s ≡ inactive) × (lineage ≡ false) × (owner ≡ false) × (auth ≡ true)
IsJustified lineage owner auth linked credential authority t linked_credential_revoked s =
    (s ≡ inactive) × (lineage ≡ false) × (owner ≡ false) × (auth ≡ false) × (linked ≡ true)
IsJustified lineage owner auth linked credential authority t credential_expired s =
    (s ≡ expired)
    × (lineage ≡ false)
    × (owner ≡ false)
    × (auth ≡ false)
    × (linked ≡ false)
    × Expiry HasPassed credential (codes "expiry_ts") t
IsJustified lineage owner auth linked credential authority t root_authority_expired s =
    (s ≡ expired)
    × (lineage ≡ false)
    × (owner ≡ false)
    × (auth ≡ false)
    × (linked ≡ false)
    × Expiry Outlives credential (codes "expiry_ts") t
    × Expiry HasPassed authority (codes "authority_expiry_ts") t
IsJustified lineage owner auth linked credential authority t chain_valid s =
    (s ≡ active)
    × (lineage ≡ false)
    × (owner ≡ false)
    × (auth ≡ false)
    × (linked ≡ false)
    × Expiry Outlives credential (codes "expiry_ts") t
    × Expiry Outlives authority (codes "authority_expiry_ts") t
IsJustified lineage owner auth linked credential authority t credential_revoked s = ⊥
IsJustified lineage owner auth linked credential authority t root_version_mismatch s = ⊥

authority_verdict_sound :
    (credential authority : Fields) (t : ℕ) (v : Status × Reason)
    → Expiry Outlives credential (codes "expiry_ts") t
    → if_credential_expired false authority t ≡ ok v
    → IsJustified false false false false credential authority t v.1 v.0
unfolding if_credential_expired
authority_verdict_sound credential authority t v later h =
    let (e, is, k) = >>=-eq-ok (field_value authority (codes "authority_expiry_ts")) _ h in
    elim (Bool-cases (is_past e t)) [
      | inl past ↦
          let same : (expired, root_authority_expired) ≡ v = ok_injective (rw past at k) in
          subst
            (λ (w : Status × Reason).
              IsJustified false false false false credential authority t w.1 w.0)
            same (refl, refl, refl, refl, refl, later, (e, is, is_past-HasPassed e t past))
      | inr future ↦
          let same : (active, chain_valid) ≡ v = ok_injective (rw future at k) in
          subst
            (λ (w : Status × Reason).
              IsJustified false false false false credential authority t w.1 w.0)
            same (refl, refl, refl, refl, refl, later, (e, is, is_past-Outlives e t future))
    ]

expiry_verdict_sound :
    (credential authority : Fields) (t : ℕ) (v : Status × Reason)
    → rooted_verdict false false false false credential authority t ≡ ok v
    → IsJustified false false false false credential authority t v.1 v.0
unfolding rooted_verdict
expiry_verdict_sound credential authority t v h =
    let (e, is, k) = >>=-eq-ok (field_value credential (codes "expiry_ts")) _ h in
    elim (Bool-cases (is_past e t)) [
      | inl past ↦
          let same : (expired, credential_expired) ≡ v =
            ok_injective (unfold if_credential_expired in rw past at k) in
          subst
            (λ (w : Status × Reason).
              IsJustified false false false false credential authority t w.1 w.0)
            same (refl, refl, refl, refl, refl, (e, is, is_past-HasPassed e t past))
      | inr future ↦
          authority_verdict_sound credential authority t v (e, is, is_past-Outlives e t future)
            (rw future at k)
    ]

pub rooted_verdict_sound :
    (lineage owner auth linked : Bool) (credential authority : Fields) (t : ℕ) (v : Status × Reason)
    → rooted_verdict lineage owner auth linked credential authority t ≡ ok v
    → IsJustified lineage owner auth linked credential authority t v.1 v.0
unfolding rooted_verdict
rooted_verdict_sound true owner auth linked credential authority t v h =
    subst
      (λ (w : Status × Reason). IsJustified true owner auth linked credential authority t w.1 w.0)
      (ok_injective h) (refl, refl)
rooted_verdict_sound false true auth linked credential authority t v h =
    subst
      (λ (w : Status × Reason). IsJustified false true auth linked credential authority t w.1 w.0)
      (ok_injective h) (refl, refl, refl)
rooted_verdict_sound false false true linked credential authority t v h =
    subst
      (λ (w : Status × Reason). IsJustified false false true linked credential authority t w.1 w.0)
      (ok_injective h) (refl, refl, refl, refl)
rooted_verdict_sound false false false true credential authority t v h =
    subst
      (λ (w : Status × Reason). IsJustified false false false true credential authority t w.1 w.0)
      (ok_injective h) (refl, refl, refl, refl, refl)
rooted_verdict_sound false false false false credential authority t v h =
    expiry_verdict_sound credential authority t v h

module _ (hash : List ℤ → ℕ → Option ℤ) (siloed_nullifier : ℕ)
    (to_address : List ℕ → Option ℤ) where
  -- What a state of a rooted credential promises: notes that name one root and one claims hash, the
  -- nullifiers of their secrets, and a reason that holds of the tree and the time of one block.
  pub record IsRootedState (node : ChainNode) (issuer : List ℕ) (hints : PassportHints)
      (root_hints : RootHints) (authority_note : NoteValue) (st : CredentialChainState)
      : Type 0 where
    pub notes : RootedNotes
    pub nullifiers : RootedNullifiers
    pub timestamp : ℕ
    pub notes_are : AreRootedNotes hints root_hints authority_note notes
    pub nullifiers_are :
        AreRootedNullifiers hash siloed_nullifier to_address issuer notes nullifiers
    pub timestamp_is : node.block_timestamp node.block_number ≡ some timestamp
    pub block_is : st.checked_at_block ≡ node.block_number
    pub time_is : st.checked_at_timestamp ≡ to_string_radix 10 timestamp
    pub justified :
        IsJustified
          (node.has_nullifier node.block_number nullifiers.lineage)
          (node.has_nullifier node.block_number nullifiers.owner)
          (node.has_nullifier node.block_number nullifiers.authority)
          (node.has_nullifier node.block_number nullifiers.linked)
          notes.credential
          notes.authority
          timestamp
          st.reason
          st.status

  -- A rooted credential gets the status and the reason that hold at the block that was read: it is active
  -- only if all notes name the same root and claims, none of the four nullifiers of their secrets is in
  -- the tree of that block, and both expiries are later than its time. Of several reasons the first in
  -- the order lineage, owner, authority, linked credential, expiry, authority expiry is given.
  pub read_rooted_credential_chain_state_sound :
      (node : ChainNode) (issuer : List ℕ) (hints : PassportHints) (root_hints : RootHints)
      (authority_note : NoteValue) (st : CredentialChainState)
      → read_rooted_credential_chain_state hash siloed_nullifier to_address node issuer hints
          root_hints authority_note
        ≡ ok st
      → IsRootedState node issuer hints root_hints authority_note st
  unfolding state_at
  read_rooted_credential_chain_state_sound node issuer hints root_hints authority_note st h =
      let r =
        read_rooted-steps hash siloed_nullifier to_address node issuer hints root_hints
          authority_note st h in
      subst (IsRootedState node issuer hints root_hints authority_note) (sym r.state_is) (record {
        notes = r.notes;
        nullifiers = r.nullifiers;
        timestamp = r.timestamp;
        notes_are = r.notes_are;
        nullifiers_are = r.nullifiers_are;
        timestamp_is = r.timestamp_is;
        block_is = refl;
        time_is = refl;
        justified =
            rooted_verdict_sound _ _ _ _ r.notes.credential r.notes.authority r.timestamp r.verdict
              r.verdict_is;
      })
