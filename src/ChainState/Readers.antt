-- ===== src/ChainState/Readers.antt =====
-- credential-chain-state.ts: the three readers. The hash, the separator of siloed nullifiers, the address
-- parser and the node are parameters.
use magna_monorepo.Base.{
  ℕ, Bool, true, false, ◌||◌, not, List, [], ◌∷◌, Option, none, some, Result, ok, throw_if, ◌>>=◌,
  ◌>>◌, leb, if◌then◌else◌,
}
use magna_monorepo.Base.Numbers.{ℤ, pos, negsuc, int_eq}
use magna_monorepo.Base.Texts.{codes}
use magna_monorepo.Core.Bytes.{to_string_radix}
use magna_monorepo.ChainState.Notes.{
  ChainStateError, not_hashable, bad_address, block_unavailable, missing_root_metadata, NoteValue,
  Fields, has_field, note_record, or_throw, field_value, assert_field, big_int,
}

abbrev pub revocation_ds : ℕ
revocation_ds = 0x4d415247

abbrev pub root_owner_revocation_ds : ℕ
root_owner_revocation_ds = 0x4d415257

abbrev pub linked_status_secret_ds : ℕ
linked_status_secret_ds = 0x4d414c53

abbrev pub root_revocation_ds : ℕ
root_revocation_ds = 0x4d41524f

abbrev pub root_authority_revocation_ds : ℕ
root_authority_revocation_ds = 0x4d415241

pub data Status : Type 0 where
  active inactive expired : Status

pub data Reason : Type 0 where
  chain_valid linked_credential_revoked credential_revoked root_owner_revoked : Reason
  root_version_mismatch root_lineage_revoked_or_recovered root_authority_superseded : Reason
  credential_expired root_authority_expired : Reason

pub record CredentialChainState : Type 0 where
  pub status : Status
  pub reason : Reason
  pub checked_at_block : ℕ
  pub checked_at_timestamp : List ℕ

-- `BigInt(value)` of a string or a bigint.
pub data TextOrInt : Type 0 where
  text : List ℕ → TextOrInt
  int : ℤ → TextOrInt

abbrev pub to_int : TextOrInt → Result ChainStateError ℤ
to_int (text t) = big_int t
to_int (int n) = ok n

pub record PassportHints : Type 0 where
  pub claims_hash : List ℕ
  pub hinted_credential_note : NoteValue
  pub hinted_status_note : NoteValue

pub record RootHints : Type 0 where
  pub root_commitment : List ℕ
  pub hinted_root_status_note : NoteValue

-- What the node answers during one call: the number of the latest block, the timestamp of a block that
-- is available, and the nullifiers in the tree at a block.
pub record ChainNode : Type 0 where
  pub block_number : ℕ
  pub block_timestamp : ℕ → Option ℕ
  pub has_nullifier : ℕ → ℤ → Bool

-- `expiry <= timestamp`
abbrev pub is_past : ℤ → ℕ → Bool
is_past (pos n) timestamp = leb n timestamp
is_past (negsuc n) timestamp = true

unfoldable pub state_at : ChainNode → ℕ → Status × Reason → CredentialChainState
unfolding to_string_radix
state_at node timestamp verdict = record {
  status = verdict.0;
  reason = verdict.1;
  checked_at_block = node.block_number;
  checked_at_timestamp = to_string_radix 10 timestamp;
}

unfoldable pub if_credential_expired : Bool → Fields → ℕ → Result ChainStateError (Status × Reason)
unfolding field_value
if_credential_expired true authority timestamp = ok (expired, credential_expired)
if_credential_expired false authority timestamp = do
  expiry ← field_value authority (codes "authority_expiry_ts")
  ok (if is_past expiry timestamp then (expired, root_authority_expired) else (active, chain_valid))

-- The end of `readRootedCredentialChainState`: whether the nullifiers of the root's lineage, of its
-- owner, of the authority and of the linked credential are in the tree, then the two expiries.
unfoldable pub rooted_verdict :
    Bool → Bool → Bool → Bool → Fields → Fields → ℕ → Result ChainStateError (Status × Reason)
unfolding field_value if_credential_expired
rooted_verdict true _ _ _ credential authority timestamp =
    ok (inactive, root_lineage_revoked_or_recovered)
rooted_verdict false true _ _ credential authority timestamp = ok (inactive, root_owner_revoked)
rooted_verdict false false true _ credential authority timestamp =
    ok (inactive, root_authority_superseded)
rooted_verdict false false false true credential authority timestamp =
    ok (inactive, linked_credential_revoked)
rooted_verdict false false false false credential authority timestamp = do
  expiry ← field_value credential (codes "expiry_ts")
  if_credential_expired (is_past expiry timestamp) authority timestamp

unfoldable pub root_verdict : Bool → Bool → Status × Reason
root_verdict recovery owner = (
  if recovery || owner then inactive else active,
  if recovery
      then root_lineage_revoked_or_recovered
      else if owner
      then root_owner_revoked
      else chain_valid,
)

-- The end of `readInstagramCredentialChainState`, with the witnesses 0, 1 and 2.
unfoldable pub instagram_verdict :
    Bool → Bool → Bool → Bool → Bool → Fields → ℕ → Result ChainStateError (Status × Reason)
unfolding field_value
instagram_verdict revoked true _ _ _ credential timestamp =
    ok (inactive, root_lineage_revoked_or_recovered)
instagram_verdict revoked false true _ _ credential timestamp = ok (inactive, root_owner_revoked)
instagram_verdict revoked false false true _ credential timestamp =
    ok (inactive, root_version_mismatch)
instagram_verdict true false false false linked credential timestamp =
    ok (inactive, if linked then linked_credential_revoked else credential_revoked)
instagram_verdict false false false false linked credential timestamp = do
  expiry ← field_value credential (codes "expiry_ts")
  ok (if is_past expiry timestamp then (expired, credential_expired) else (active, chain_valid))

-- The root commitment of a note, then its claims hash.
unfoldable pub assert_bound : Fields → ℤ → ℤ → Result ChainStateError (Unit {0})
unfolding assert_field
assert_bound note root claims = do
  assert_field note (codes "root_commitment") root
  assert_field note (codes "claims_hash") claims

-- The notes of a rooted credential, and what they agree on.
pub record RootedNotes : Type 0 where
  pub root_status : Fields
  pub authority : Fields
  pub status : Fields
  pub credential : Fields
  pub root : ℤ
  pub claims : ℤ
  pub kind : ℤ

unfoldable pub read_rooted_notes :
    PassportHints → RootHints → NoteValue → Result ChainStateError RootedNotes
unfolding note_record assert_field assert_bound field_value
read_rooted_notes hints root_hints hinted_root_authority_note = do
  root_status ← note_record root_hints.hinted_root_status_note
  authority ← note_record hinted_root_authority_note
  status ← note_record hints.hinted_status_note
  credential ← note_record hints.hinted_credential_note
  root ← big_int root_hints.root_commitment
  claims ← big_int hints.claims_hash
  assert_field root_status (codes "root_commitment") root
  assert_bound authority root claims
  assert_bound status root claims
  assert_bound credential root claims
  kind ← field_value status (codes "credential_type")
  assert_field credential (codes "credential_type") kind
  ok (record {
    root_status = root_status;
    authority = authority;
    status = status;
    credential = credential;
    root = root;
    claims = claims;
    kind = kind;
  })

pub record RootedNullifiers : Type 0 where
  pub linked : ℤ
  pub lineage : ℤ
  pub authority : ℤ
  pub owner : ℤ

-- `poseidon2HashWithSeparator`, which throws on a value that is no field element, the separator of
-- siloed nullifiers, and `toAddress`.
module _ (hash : List ℤ → ℕ → Option ℤ) (siloed_nullifier : ℕ)
    (to_address : List ℕ → Option ℤ) where
  abbrev pub hash_with : List ℤ → ℕ → Result ChainStateError ℤ
  hash_with values separator = or_throw not_hashable (hash values separator)

  unfoldable pub silo : List ℕ → ℤ → Result ChainStateError ℤ
  silo issuer inner = do
    address ← or_throw bad_address (to_address issuer)
    hash_with (address ∷ inner ∷ []) siloed_nullifier

  -- `silo(issuer, poseidon2HashWithSeparator(values, separator))`
  unfoldable pub siloed : List ℕ → List ℤ → ℕ → Result ChainStateError ℤ
  unfolding silo
  siloed issuer values separator = do inner ← hash_with values separator; silo issuer inner

  unfoldable pub derive_linked_instagram_status_secret : ℤ → ℤ → Result ChainStateError ℤ
  derive_linked_instagram_status_secret root_secret claims_hash =
      hash_with (root_secret ∷ pos 3 ∷ claims_hash ∷ []) linked_status_secret_ds

  unfoldable pub read_root_status_chain_state :
      ChainNode → List ℕ → TextOrInt → NoteValue → Result ChainStateError CredentialChainState
  unfolding note_record assert_field field_value siloed root_verdict state_at
  read_root_status_chain_state node issuer root_commitment hinted_root_status_note = do
    root ← to_int root_commitment
    note ← note_record hinted_root_status_note
    assert_field note (codes "root_commitment") root
    secret ← field_value note (codes "revocation_secret")
    recovery ← siloed issuer (secret ∷ root ∷ []) root_revocation_ds
    owner ← siloed issuer (secret ∷ root ∷ []) root_owner_revocation_ds
    timestamp ← or_throw block_unavailable (node.block_timestamp node.block_number)
    ok (
        state_at node timestamp (
          root_verdict (node.has_nullifier node.block_number recovery)
            (node.has_nullifier node.block_number owner)))

  unfoldable pub rooted_nullifiers : List ℕ → RootedNotes → Result ChainStateError RootedNullifiers
  unfolding field_value silo siloed
  rooted_nullifiers issuer notes = do
    secret ← field_value notes.status (codes "revocation_secret")
    linked_inner ← hash_with (secret ∷ notes.kind ∷ notes.claims ∷ []) revocation_ds
    root_secret ← field_value notes.root_status (codes "revocation_secret")
    root_inner ← hash_with (root_secret ∷ notes.root ∷ []) root_revocation_ds
    authority_secret ← field_value notes.authority (codes "revocation_secret")
    authority_inner ←
        hash_with (authority_secret ∷ notes.root ∷ notes.claims ∷ []) root_authority_revocation_ds
    linked ← silo issuer linked_inner
    lineage ← silo issuer root_inner
    authority ← silo issuer authority_inner
    owner ← siloed issuer (root_secret ∷ notes.root ∷ []) root_owner_revocation_ds
    ok (record { linked = linked; lineage = lineage; authority = authority; owner = owner })

  unfoldable pub read_rooted_credential_chain_state :
      ChainNode
      → List ℕ
      → PassportHints
      → RootHints
      → NoteValue
      → Result ChainStateError CredentialChainState
  unfolding read_rooted_notes rooted_nullifiers rooted_verdict state_at
  read_rooted_credential_chain_state node issuer hints root_hints hinted_root_authority_note = do
    notes ← read_rooted_notes hints root_hints hinted_root_authority_note
    nullifiers ← rooted_nullifiers issuer notes
    timestamp ← or_throw block_unavailable (node.block_timestamp node.block_number)
    let spent = node.has_nullifier node.block_number
    verdict ←
        rooted_verdict (spent nullifiers.lineage) (spent nullifiers.owner)
          (spent nullifiers.authority) (spent nullifiers.linked) notes.credential notes.authority
          timestamp
    ok (state_at node timestamp verdict)

  -- What `LinkedInstagramHints` add: whether the version of the root is another than the one that the
  -- status was made for, and the nullifiers of the root's lineage and of its owner.
  unfoldable pub instagram_root :
      List ℕ
      → Fields
      → Fields
      → ℤ
      → ℤ
      → Option RootHints
      → Result ChainStateError (Option (Bool × ℤ × ℤ))
  unfolding note_record assert_field field_value siloed derive_linked_instagram_status_secret
      has_field
  instagram_root issuer credential status claims secret none = do
    throw_if
        (has_field (codes "root_commitment") credential
          || has_field (codes "root_commitment") status)
        missing_root_metadata
    ok none
  instagram_root issuer credential status claims secret (some hints) = do
    root ← big_int hints.root_commitment
    root_status ← note_record hints.hinted_root_status_note
    assert_field credential (codes "root_commitment") root
    assert_field status (codes "root_commitment") root
    assert_field root_status (codes "root_commitment") root
    root_secret ← field_value root_status (codes "revocation_secret")
    derived ← derive_linked_instagram_status_secret root_secret claims
    lineage ← siloed issuer (root_secret ∷ root ∷ []) root_revocation_ds
    owner ← siloed issuer (root_secret ∷ root ∷ []) root_owner_revocation_ds
    ok (some (not (int_eq derived secret), lineage, owner))

  abbrev pub instagram_outcome :
      ChainNode → ℤ → Fields → ℕ → Option (Bool × ℤ × ℤ) → Result ChainStateError (Status × Reason)
  instagram_outcome node own credential timestamp none =
      instagram_verdict (node.has_nullifier node.block_number own) false false false false
        credential timestamp
  instagram_outcome node own credential timestamp (some (mismatch, lineage, owner)) =
      instagram_verdict (node.has_nullifier node.block_number own)
        (node.has_nullifier node.block_number lineage) (node.has_nullifier node.block_number owner)
        mismatch true credential timestamp

  -- The hints of a linked credential have those of its root.
  unfoldable pub read_instagram_credential_chain_state :
      ChainNode
      → List ℕ
      → PassportHints
      → Option RootHints
      → Result ChainStateError CredentialChainState
  unfolding note_record assert_field field_value siloed instagram_root instagram_verdict state_at
  read_instagram_credential_chain_state node issuer hints root_hints = do
    credential ← note_record hints.hinted_credential_note
    status ← note_record hints.hinted_status_note
    claims ← big_int hints.claims_hash
    assert_field credential (codes "claims_hash") claims
    assert_field credential (codes "credential_type") (pos 3)
    assert_field status (codes "claims_hash") claims
    assert_field status (codes "credential_type") (pos 3)
    secret ← field_value status (codes "revocation_secret")
    own ← siloed issuer (secret ∷ pos 3 ∷ claims ∷ []) revocation_ds
    linked ← instagram_root issuer credential status claims secret root_hints
    timestamp ← or_throw block_unavailable (node.block_timestamp node.block_number)
    verdict ← instagram_outcome node own credential timestamp linked
    ok (state_at node timestamp verdict)
