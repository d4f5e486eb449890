-- ===== src/ChainState/Reads.antt =====
-- What a reader that returns has read, one fact for each step it took.
use magna_monorepo.Base.{
  ℕ, ◌≡◌, refl, sym, subst, ap, List, [], ◌∷◌, Option, none, some, ok, >>=-eq-ok, ok_injective,
  Bool-cases, inl, inr, ◌↔◌,
}
use magna_monorepo.Base.Numbers.{ℤ, int_eq, eq_of_int_eq, int_eq_refl}
use magna_monorepo.Base.Texts.{codes}
use magna_monorepo.ChainState.Notes.{
  ChainStateError, NoteValue, Fields, note_record, or_throw, field_value, assert_same, assert_field,
  big_int, block_unavailable,
}
use magna_monorepo.ChainState.Readers.{
  Status, Reason, CredentialChainState, PassportHints, RootHints, ChainNode, state_at,
  rooted_verdict, hash_with, silo, siloed, read_rooted_credential_chain_state, revocation_ds,
  root_owner_revocation_ds, root_revocation_ds, root_authority_revocation_ds, assert_bound,
  RootedNotes, RootedNullifiers, read_rooted_notes, rooted_nullifiers,
}

assert_same_sound : (a e : ℤ) → assert_same a e ≡ ok tt → a ≡ e
unfolding assert_same
assert_same_sound a e h = elim (Bool-cases (int_eq a e)) [
  | inl same ↦ eq_of_int_eq a e same
  | inr other ↦ absurd (let c = rw other at h in cc)
]

pub assert_field_iff :
    (note : Fields) (key : List ℕ) (n : ℤ)
    → (assert_field note key n ≡ ok tt) ↔ (field_value note key ≡ ok n)
unfolding assert_field assert_same
assert_field_iff note key n = (
  λ h.
      let (a, e, same) = >>=-eq-ok (field_value note key) _ h in
      subst (λ z. field_value note key ≡ ok z) (assert_same_sound a n same) e,
  λ e. rw (e, int_eq_refl n) refl,
)

pub or_throw_sound {ℓ} :
    {A : Type ℓ} (e : ChainStateError) (o : Option A) (a : A) → or_throw e o ≡ ok a → o ≡ some a
or_throw_sound e none a h = cc
or_throw_sound e (some b) a h = ap some (ok_injective h)

-- A note of this root and these claims.
pub record IsBound (note : Fields) (root claims : ℤ) : Type 0 where
  pub root_is : field_value note (codes "root_commitment") ≡ ok root
  pub claims_is : field_value note (codes "claims_hash") ≡ ok claims

assert_bound_sound :
    (note : Fields) (root claims : ℤ)
    → assert_bound note root claims ≡ ok tt
    → IsBound note root claims
unfolding assert_bound
assert_bound_sound note root claims h =
    let (_, a, k) = >>=-eq-ok (assert_field note (codes "root_commitment") root) _ h in
    record {
      root_is = (assert_field_iff note _ root).0 a;
      claims_is = (assert_field_iff note _ claims).0 k;
    }

-- What the notes of a rooted credential are, once they have been read.
pub record AreRootedNotes (hints : PassportHints) (root_hints : RootHints)
    (authority_note : NoteValue) (notes : RootedNotes) : Type 0 where
  pub root_status_is : note_record root_hints.hinted_root_status_note ≡ ok notes.root_status
  pub authority_is : note_record authority_note ≡ ok notes.authority
  pub status_is : note_record hints.hinted_status_note ≡ ok notes.status
  pub credential_is : note_record hints.hinted_credential_note ≡ ok notes.credential
  pub root_is : big_int root_hints.root_commitment ≡ ok notes.root
  pub claims_is : big_int hints.claims_hash ≡ ok notes.claims
  pub root_status_root : field_value notes.root_status (codes "root_commitment") ≡ ok notes.root
  pub authority_bound : IsBound notes.authority notes.root notes.claims
  pub status_bound : IsBound notes.status notes.root notes.claims
  pub credential_bound : IsBound notes.credential notes.root notes.claims
  pub status_kind : field_value notes.status (codes "credential_type") ≡ ok notes.kind
  pub credential_kind : field_value notes.credential (codes "credential_type") ≡ ok notes.kind

read_rooted_notes_sound :
    (hints : PassportHints) (root_hints : RootHints) (authority_note : NoteValue)
    (notes : RootedNotes)
    → read_rooted_notes hints root_hints authority_note ≡ ok notes
    → AreRootedNotes hints root_hints authority_note notes
unfolding read_rooted_notes
read_rooted_notes_sound hints root_hints authority_note notes h =
    let (root_status, e₁, h₁) = >>=-eq-ok (note_record root_hints.hinted_root_status_note) _ h in
    let (authority, e₂, h₂) = >>=-eq-ok (note_record authority_note) _ h₁ in
    let (status, e₃, h₃) = >>=-eq-ok (note_record hints.hinted_status_note) _ h₂ in
    let (credential, e₄, h₄) = >>=-eq-ok (note_record hints.hinted_credential_note) _ h₃ in
    let (root, e₅, h₅) = >>=-eq-ok (big_int root_hints.root_commitment) _ h₄ in
    let (claims, e₆, h₆) = >>=-eq-ok (big_int hints.claims_hash) _ h₅ in
    let (_, a₁, k₁) = >>=-eq-ok (assert_field root_status (codes "root_commitment") root) _ h₆ in
    let (_, a₂, k₂) = >>=-eq-ok (assert_bound authority root claims) _ k₁ in
    let (_, a₃, k₃) = >>=-eq-ok (assert_bound status root claims) _ k₂ in
    let (_, a₄, k₄) = >>=-eq-ok (assert_bound credential root claims) _ k₃ in
    let (kind, f₁, k₅) = >>=-eq-ok (field_value status (codes "credential_type")) _ k₄ in
    let (_, a₅, k₆) = >>=-eq-ok (assert_field credential (codes "credential_type") kind) _ k₅ in
    subst (AreRootedNotes hints root_hints authority_note) (ok_injective k₆) (record {
      root_status_is = e₁;
      authority_is = e₂;
      status_is = e₃;
      credential_is = e₄;
      root_is = e₅;
      claims_is = e₆;
      root_status_root = (assert_field_iff root_status _ root).0 a₁;
      authority_bound = assert_bound_sound authority root claims a₂;
      status_bound = assert_bound_sound status root claims a₃;
      credential_bound = assert_bound_sound credential root claims a₄;
      status_kind = f₁;
      credential_kind = (assert_field_iff credential _ kind).0 a₅;
    })

module _ (hash : List ℤ → ℕ → Option ℤ) (siloed_nullifier : ℕ)
    (to_address : List ℕ → Option ℤ) where
  -- The nullifier of some values under a separator, for the issuer.
  abbrev pub IsNullifier : List ℕ → List ℤ → ℕ → ℤ → Type 0
  IsNullifier issuer values ds n = siloed hash siloed_nullifier to_address issuer values ds ≡ ok n

  -- The four nullifiers are those of the secrets that the notes hold.
  pub record AreRootedNullifiers (issuer : List ℕ) (notes : RootedNotes) (ns : RootedNullifiers)
      : Type 0 where
    pub secret : ℤ
    pub root_secret : ℤ
    pub authority_secret : ℤ
    pub secret_is : field_value notes.status (codes "revocation_secret") ≡ ok secret
    pub root_secret_is : field_value notes.root_status (codes "revocation_secret") ≡ ok root_secret
    pub authority_secret_is :
        field_value notes.authority (codes "revocation_secret") ≡ ok authority_secret
    pub linked_is :
        IsNullifier issuer (secret ∷ notes.kind ∷ notes.claims ∷ []) revocation_ds ns.linked
    pub lineage_is :
        IsNullifier issuer (root_secret ∷ notes.root ∷ []) root_revocation_ds ns.lineage
    pub authority_is :
        IsNullifier issuer
          (authority_secret ∷ notes.root ∷ notes.claims ∷ [])
          root_authority_revocation_ds
          ns.authority
    pub owner_is :
        IsNullifier issuer (root_secret ∷ notes.root ∷ []) root_owner_revocation_ds ns.owner

  IsNullifier-siloed :
      (issuer : List ℕ) (values : List ℤ) (ds : ℕ) (inner n : ℤ)
      → hash_with hash siloed_nullifier to_address values ds ≡ ok inner
      → silo hash siloed_nullifier to_address issuer inner ≡ ok n
      → IsNullifier issuer values ds n
  unfolding siloed
  IsNullifier-siloed issuer values ds inner n h k = rw h k

  rooted_nullifiers_sound :
      (issuer : List ℕ) (notes : RootedNotes) (ns : RootedNullifiers)
      → rooted_nullifiers hash siloed_nullifier to_address issuer notes ≡ ok ns
      → AreRootedNullifiers issuer notes ns
  unfolding rooted_nullifiers
  rooted_nullifiers_sound issuer notes ns h =
      let hash_of = hash_with hash siloed_nullifier to_address in
      let silo_of = silo hash siloed_nullifier to_address issuer in
      let (secret, f₁, h₁) = >>=-eq-ok (field_value notes.status (codes "revocation_secret")) _ h in
      let (i₁, g₁, h₂) =
        >>=-eq-ok (hash_of (secret ∷ notes.kind ∷ notes.claims ∷ []) revocation_ds) _ h₁ in
      let (root_secret, f₂, h₃) =
        >>=-eq-ok (field_value notes.root_status (codes "revocation_secret")) _ h₂ in
      let (i₂, g₂, h₄) =
        >>=-eq-ok (hash_of (root_secret ∷ notes.root ∷ []) root_revocation_ds) _ h₃ in
      let (authority_secret, f₃, h₅) =
        >>=-eq-ok (field_value notes.authority (codes "revocation_secret")) _ h₄ in
      let (i₃, g₃, h₆) =
        >>=-eq-ok
          (hash_of (authority_secret ∷ notes.root ∷ notes.claims ∷ []) root_authority_revocation_ds)
          _ h₅ in
      let (linked, s₁, h₇) = >>=-eq-ok (silo_of i₁) _ h₆ in
      let (lineage, s₂, h₈) = >>=-eq-ok (silo_of i₂) _ h₇ in
      let (authority, s₃, h₉) = >>=-eq-ok (silo_of i₃) _ h₈ in
      let (owner, s₄, k) =
        >>=-eq-ok
          (siloed hash siloed_nullifier to_address issuer (root_secret ∷ notes.root ∷ [])
            root_owner_revocation_ds)
          _ h₉ in
      subst (AreRootedNullifiers issuer notes) (ok_injective k) (record {
        secret = secret;
        root_secret = root_secret;
        authority_secret = authority_secret;
        secret_is = f₁;
        root_secret_is = f₂;
        authority_secret_is = f₃;
        linked_is = IsNullifier-siloed issuer _ _ i₁ linked g₁ s₁;
        lineage_is = IsNullifier-siloed issuer _ _ i₂ lineage g₂ s₂;
        authority_is = IsNullifier-siloed issuer _ _ i₃ authority g₃ s₃;
        owner_is = s₄;
      })

  -- The steps of `readRootedCredentialChainState`.
  pub record RootedRead (node : ChainNode) (issuer : List ℕ) (hints : PassportHints)
      (root_hints : RootHints) (authority_note : NoteValue) (st : CredentialChainState)
      : Type 0 where
    pub notes : RootedNotes
    pub nullifiers : RootedNullifiers
    pub timestamp : ℕ
    pub verdict : Status × Reason
    pub notes_are : AreRootedNotes hints root_hints authority_note notes
    pub nullifiers_are : AreRootedNullifiers issuer notes nullifiers
    pub timestamp_is : node.block_timestamp node.block_number ≡ some timestamp
    pub verdict_is :
        rooted_verdict
          (node.has_nullifier node.block_number nullifiers.lineage)
          (node.has_nullifier node.block_number nullifiers.owner)
          (node.has_nullifier node.block_number nullifiers.authority)
          (node.has_nullifier node.block_number nullifiers.linked)
          notes.credential
          notes.authority
          timestamp
        ≡ ok verdict
    pub state_is : st ≡ state_at node timestamp verdict

  pub read_rooted-steps :
      (node : ChainNode) (issuer : List ℕ) (hints : PassportHints) (root_hints : RootHints)
      (authority_note : NoteValue) (st : CredentialChainState)
      → read_rooted_credential_chain_state hash siloed_nullifier to_address node issuer hints
          root_hints authority_note
        ≡ ok st
      → RootedRead node issuer hints root_hints authority_note st
  unfolding read_rooted_credential_chain_state
  read_rooted-steps node issuer hints root_hints authority_note st h =
      let (notes, e₁, h₁) = >>=-eq-ok (read_rooted_notes hints root_hints authority_note) _ h in
      let (ns, e₂, h₂) =
        >>=-eq-ok (rooted_nullifiers hash siloed_nullifier to_address issuer notes) _ h₁ in
      let (timestamp, e₃, h₃) =
        >>=-eq-ok (or_throw block_unavailable (node.block_timestamp node.block_number)) _ h₂ in
      let (verdict, e₄, h₄) =
        >>=-eq-ok
          (rooted_verdict (node.has_nullifier node.block_number ns.lineage)
            (node.has_nullifier node.block_number ns.owner)
            (node.has_nullifier node.block_number ns.authority)
            (node.has_nullifier node.block_number ns.linked) notes.credential notes.authority
            timestamp)
          _ h₃ in
      record {
        notes = notes;
        nullifiers = ns;
        timestamp = timestamp;
        verdict = verdict;
        notes_are = read_rooted_notes_sound hints root_hints authority_note notes e₁;
        nullifiers_are = rooted_nullifiers_sound issuer notes ns e₂;
        timestamp_is = or_throw_sound _ _ timestamp e₃;
        verdict_is = e₄;
        state_is = sym (ok_injective h₄);
      }
