-- ===== src/ChainState/Agreement.antt =====
-- The reader of a root alone agrees with the reader of a rooted credential.
use magna_monorepo.Base.{
  ℕ, ◌≡◌, refl, sym, ◌∙◌, ap, Bool, true, false, List, Option, ok, ok_injective, inl, inr, ◌⊎◌,
}
use magna_monorepo.Base.Numbers.{ℤ}
use magna_monorepo.Base.Texts.{codes}
use magna_monorepo.ChainState.Notes.{NoteValue, Fields}
use magna_monorepo.ChainState.Readers.{
  Status, active, Reason, chain_valid, linked_credential_revoked, credential_revoked,
  root_owner_revoked, root_version_mismatch, root_lineage_revoked_or_recovered,
  root_authority_superseded, credential_expired, root_authority_expired, CredentialChainState, text,
  PassportHints, RootHints, ChainNode, state_at, root_verdict, rooted_verdict,
  read_root_status_chain_state, read_rooted_credential_chain_state,
}
use magna_monorepo.ChainState.Reads.{assert_field_iff, RootedRead, read_rooted-steps}
use magna_monorepo.ChainState.Rooted.{IsJustified, rooted_verdict_sound}

-- The reasons that the kill switches of a root give.
abbrev pub is_root_reason : Reason → Bool
is_root_reason root_lineage_revoked_or_recovered = true
is_root_reason root_owner_revoked = true
is_root_reason _ = false

other_reason :
    (auth linked : Bool) (credential authority : Fields) (t : ℕ) (r : Reason) (s : Status)
    → IsJustified false false auth linked credential authority t r s
    → is_root_reason r ≡ false
other_reason auth linked credential authority t root_lineage_revoked_or_recovered s h =
    absurd (let no = h.1 in cc)
other_reason auth linked credential authority t root_owner_revoked s h = absurd (let no = h.2 in cc)
other_reason auth linked credential authority t root_authority_superseded s h = refl
other_reason auth linked credential authority t linked_credential_revoked s h = refl
other_reason auth linked credential authority t credential_revoked s h = refl
other_reason auth linked credential authority t root_version_mismatch s h = refl
other_reason auth linked credential authority t credential_expired s h = refl
other_reason auth linked credential authority t root_authority_expired s h = refl
other_reason auth linked credential authority t chain_valid s h = refl

verdicts_agree :
    (lineage owner auth linked : Bool) (credential authority : Fields) (t : ℕ) (v : Status × Reason)
    → rooted_verdict lineage owner auth linked credential authority t ≡ ok v
    → (((root_verdict lineage owner).0 ≡ active) × (is_root_reason v.1 ≡ false))
      ⊎ (root_verdict lineage owner ≡ v)
unfolding root_verdict
verdicts_agree true owner auth linked credential authority t v h =
    inr (unfold rooted_verdict in ok_injective h)
verdicts_agree false true auth linked credential authority t v h =
    inr (unfold rooted_verdict in ok_injective h)
verdicts_agree false false auth linked credential authority t v h = inl (
  refl,
  other_reason auth linked credential authority t v.1 v.0
      (rooted_verdict_sound false false auth linked credential authority t v h),
)

module _ (hash : List ℤ → ℕ → Option ℤ) (siloed_nullifier : ℕ)
    (to_address : List ℕ → Option ℤ) where
  root_state :
      (node : ChainNode) (issuer : List ℕ) (hints : PassportHints) (root_hints : RootHints)
      (authority_note : NoteValue) (st : CredentialChainState)
      (r : RootedRead hash siloed_nullifier to_address node issuer hints root_hints authority_note
        st)
      → read_root_status_chain_state hash siloed_nullifier to_address node issuer
          (text root_hints.root_commitment)
          root_hints.hinted_root_status_note
        ≡ ok (
            state_at node r.timestamp (
              root_verdict
                (node.has_nullifier node.block_number r.nullifiers.lineage)
                (node.has_nullifier node.block_number r.nullifiers.owner)))
  unfolding read_root_status_chain_state
  root_state node issuer hints root_hints authority_note st r =
      rw
        (
          r.notes_are.root_is,
          r.notes_are.root_status_is,
          (assert_field_iff r.notes.root_status (codes "root_commitment") r.notes.root).1
              r.notes_are.root_status_root,
          r.nullifiers_are.root_secret_is,
          r.nullifiers_are.lineage_is,
          r.nullifiers_are.owner_is,
          r.timestamp_is,
        )
        refl

  -- Where the reader of a rooted credential returns, so does the reader of its root. The root is active,
  -- and then the reason given for the credential is none of the root's, or else both readers return the
  -- same state.
  pub read_root_status_chain_state-agrees :
      (node : ChainNode) (issuer : List ℕ) (hints : PassportHints) (root_hints : RootHints)
      (authority_note : NoteValue) (st : CredentialChainState)
      → read_rooted_credential_chain_state hash siloed_nullifier to_address node issuer hints
          root_hints authority_note
        ≡ ok st
      → (root : CredentialChainState) × (read_root_status_chain_state hash siloed_nullifier
            to_address node issuer
            (text root_hints.root_commitment)
            root_hints.hinted_root_status_note
          ≡ ok root)
        × (((root.status ≡ active) × (is_root_reason st.reason ≡ false)) ⊎ (root ≡ st))
  unfolding state_at
  read_root_status_chain_state-agrees node issuer hints root_hints authority_note st h =
      let r =
        read_rooted-steps hash siloed_nullifier to_address node issuer hints root_hints
          authority_note st h in
      let has = node.has_nullifier node.block_number in
      (
        state_at node r.timestamp
            (root_verdict (has r.nullifiers.lineage) (has r.nullifiers.owner)),
        root_state node issuer hints root_hints authority_note st r,
        elim (verdicts_agree _ _ _ _ r.notes.credential r.notes.authority r.timestamp r.verdict
            r.verdict_is) [
              | inl (live, other) ↦ inl (
                live,
                ap (λ (q : CredentialChainState). is_root_reason q.reason) r.state_is ∙ other,
              )
              | inr same ↦ inr (ap (state_at node r.timestamp) same ∙ sym r.state_is)
            ],
      )
