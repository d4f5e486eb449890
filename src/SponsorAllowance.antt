-- ===== src/SponsorAllowance.antt =====
-- packages/magna-wallet/src/browser/sponsor-allowance.ts: the slots of sponsored verification that a
-- credential has in a day. The hash, the domain separators and the node are parameters.
mod Examples
pub mod Selection
pub mod Sending
use magna_monorepo.Base.{
  ℕ, zero, suc, ◌+◌, ◌*◌, ◌/◌, Bool, true, false, ◌&&◌, ◌||◌, not, List, [], ◌∷◌, Option, none,
  some, map, Result, ok, err, throw_if, ◌>>=◌, ◌>>◌, ltb, leb, ◌==◌, if◌then◌else◌, length,
}
use magna_monorepo.Base.Numbers.{ℤ, pos, negsuc}
use magna_monorepo.Core.Values.{Number, integer, not_integer}

abbrev pub rate_limit_ds : ℕ
rate_limit_ds = 0x4d414752

abbrev pub window_seconds : ℕ
window_seconds = 86400

abbrev pub slot_count : ℕ
slot_count = 5

-- The fields of the status note, once `field` has read them.
pub record StatusFields : Type 0 where
  pub secret : ℕ
  pub credential_type : ℕ
  pub claims : ℕ

-- `status_note` is `none` when there is no authenticated note.
pub record SponsorAllowanceInput : Type 0 where
  pub issuer_address : ℕ
  pub credential_type : ℕ
  pub claims_hash : ℕ
  pub status_note : Option StatusFields
  pub required_slots : Option Number

-- What the wallet's anchor and the node answer during one call: the timestamp of the anchor, if the
-- caller gave a way to read it, the timestamp of the latest block, and the nullifiers in its tree.
pub record Snapshot : Type 0 where
  pub anchor_timestamp : Option ℕ
  pub block_timestamp : Option ℕ
  pub has_nullifier : ℕ → Bool

pub data SponsorError : Type 0 where
  bad_required_slots missing_status note_mismatch block_unavailable : SponsorError
  exhausted : ℕ → Bool → SponsorError

pub record SelectedSlot : Type 0 where
  pub slot : ℕ
  pub nullifier : ℕ
  pub resets_at : ℕ

unfoldable pub status_fields : SponsorAllowanceInput → Result SponsorError StatusFields
status_fields input = elim input.status_note [
  | none ↦ err missing_status
  | some s ↦
      if s.credential_type == input.credential_type && s.claims == input.claims_hash
      then ok s
      else err note_mismatch
]

-- `Number.isInteger(n) && n >= 1 && n <= 5`, and the integer; 1 when it is not given.
unfoldable pub required : Option Number → Result SponsorError ℕ
required none = ok 1
required (some not_integer) = err bad_required_slots
required (some (integer (negsuc n))) = err bad_required_slots
required (some (integer (pos n))) =
    if leb 1 n && leb n slot_count then ok n else err bad_required_slots

-- `witnesses.findIndex(witness => witness === undefined)` from the slot `i` on, with the nullifier
-- there. The value of `none` is -1.
unfoldable pub find_unused : (ℕ → Bool) → List ℕ → ℕ → Option (ℕ × ℕ)
find_unused has_nullifier [] i = none
find_unused has_nullifier (n ∷ ns) i =
    let next = find_unused has_nullifier ns (i + 1) in if has_nullifier n then next else some (i, n)

-- `witnesses.filter(witness => witness === undefined).length`
unfoldable pub count_unused : (ℕ → Bool) → List ℕ → ℕ
count_unused has_nullifier [] = 0
count_unused has_nullifier (n ∷ ns) =
    let rest = count_unused has_nullifier ns in if has_nullifier n then rest else suc rest

-- `anchorTimestamp ?? block.header.globalVariables.timestamp`
unfoldable pub window_timestamp : Snapshot → Result SponsorError ℕ
window_timestamp s = elim s.block_timestamp [
  | none ↦ err block_unavailable
  | some block ↦ elim s.anchor_timestamp [ none ↦ ok block | some anchor ↦ ok anchor ]
]

-- A slot that was found, or the error for too few of them. At least one is wanted, so that the inner
-- `none` is never met: with no unused slot there are too few.
unfoldable pub slot_or_exhausted : Option (ℕ × ℕ) → ℕ → ℕ → ℕ → Result SponsorError SelectedSlot
slot_or_exhausted found available wanted resets_at =
    if ltb available wanted then err (exhausted resets_at (ltb 0 available)) else elim found [
      | none ↦ err (exhausted resets_at (ltb 0 available))
      | some (slot, nullifier) ↦
          ok (record { slot = slot; nullifier = nullifier; resets_at = resets_at })
    ]

-- `poseidon2HashWithSeparator`, and the separator of siloed nullifiers.
module _ (hash : List ℕ → ℕ → ℕ) (siloed_nullifier : ℕ) where
  unfoldable pub slot_nullifier : SponsorAllowanceInput → StatusFields → ℕ → ℕ → ℕ
  slot_nullifier input s window_id slot =
      let inner =
        hash (s.secret ∷ s.credential_type ∷ s.claims ∷ window_id ∷ slot ∷ []) rate_limit_ds in
      hash (input.issuer_address ∷ inner ∷ []) siloed_nullifier

  unfoldable pub slot_nullifiers : SponsorAllowanceInput → StatusFields → ℕ → List ℕ
  unfolding slot_nullifier
  slot_nullifiers input s window_id =
      map (slot_nullifier input s window_id) (0 ∷ 1 ∷ 2 ∷ 3 ∷ 4 ∷ [])

  unfoldable pub select_unused_sponsor_slot :
      SponsorAllowanceInput → Snapshot → Result SponsorError SelectedSlot
  unfolding status_fields required window_timestamp slot_or_exhausted
  select_unused_sponsor_slot input snapshot = do
    wanted ← required input.required_slots
    s ← status_fields input
    timestamp ← window_timestamp snapshot
    let window_id = timestamp / window_seconds
    let nullifiers = slot_nullifiers input s window_id
    slot_or_exhausted (find_unused snapshot.has_nullifier nullifiers 0)
        (count_unused snapshot.has_nullifier nullifiers) wanted ((window_id + 1) * window_seconds)

-- What a `send` that threw said: whether the message has "AVM simulation failed:", and the value of the
-- duplicate siloed nullifier that it names, if it names one.
pub record SendFailure : Type 0 where
  pub simulation_failed : Bool
  pub duplicate : Option ℕ

pub data SendOutcome {ℓ} (A : Type ℓ) : Type ℓ where
  sent : A → SendOutcome A
  failed : SendFailure → SendOutcome A

-- What one attempt meets: the snapshot of its selection, what `send` does with a slot, the timestamp
-- that is read after a failure, if there is one, and the tree at "latest".
pub record Attempt {ℓ} (A : Type ℓ) : Type ℓ where
  pub snapshot : Snapshot
  pub send : ℕ → SendOutcome A
  pub retry_timestamp : Option ℕ
  pub latest_nullifier : ℕ → Bool

pub data SendError : Type 0 where
  not_selected : SponsorError → SendError
  send_failed : SendFailure → SendError
  no_collision : SendError

-- A selection that throws ends the loop.
abbrev pub if_selected {ℓ} :
    {A : Type ℓ}
    → Result SponsorError SelectedSlot
    → (SelectedSlot → Result SendError A × List (ℕ × SelectedSlot))
    → Result SendError A × List (ℕ × SelectedSlot)
if_selected (err e) k = (err (not_selected e), [])
if_selected (ok r) k = k r

-- `try { return await send(slot) } catch (error) …`
abbrev pub if_sent {ℓ} :
    {A : Type ℓ}
    → SendOutcome A
    → ℕ × SelectedSlot
    → (SendFailure → Result SendError A × List (ℕ × SelectedSlot))
    → Result SendError A × List (ℕ × SelectedSlot)
if_sent (sent x) at_slot k = (ok x, at_slot ∷ [])
if_sent (failed f) at_slot k = k f

-- A failure that is not a collision is thrown.
abbrev pub go_on {ℓ} :
    {A : Type ℓ}
    → Bool
    → ℕ × SelectedSlot
    → SendFailure
    → Result SendError A × List (ℕ × SelectedSlot)
    → Result SendError A × List (ℕ × SelectedSlot)
go_on true at_slot f rest = (rest.0, at_slot ∷ rest.1)
go_on false at_slot f rest = (err (send_failed f), at_slot ∷ [])

module _ (hash : List ℕ → ℕ → ℕ) (siloed_nullifier : ℕ) where
  -- The nullifier of the slot under the timestamp that was read anew.
  unfoldable pub moved_nullifier : SponsorAllowanceInput → Option ℕ → ℕ → Option ℕ
  moved_nullifier input none slot = none
  moved_nullifier input (some timestamp) slot = elim (status_fields input) [
    | err e ↦ none
    | ok s ↦ some (slot_nullifier hash siloed_nullifier input s (timestamp / window_seconds) slot)
  ]

  abbrev pub is_some_of : ℕ → Option ℕ → Bool
  is_some_of n none = false
  is_some_of n (some m) = n == m

  -- Whether the failure is a collision on the chain with the slot that was selected, so that the loop
  -- goes on.
  unfoldable pub is_collision {ℓ} :
      {A : Type ℓ} → SponsorAllowanceInput → Attempt A → SelectedSlot → SendFailure → Bool
  unfolding moved_nullifier
  is_collision input attempt selected failure = elim failure.duplicate [
    | none ↦ false
    | some d ↦
        failure.simulation_failed
        && (d == selected.nullifier
            || is_some_of d (moved_nullifier input attempt.retry_timestamp selected.slot))
        && attempt.latest_nullifier d
  ]

  -- The loop, with `rounds` attempts left that may send, what is thrown after the last, and the sends
  -- that were made: the number of the attempt, and the slot.
  unfoldable pub send_loop {ℓ} :
      {A : Type ℓ}
      → SponsorAllowanceInput
      → (ℕ → Attempt A)
      → ℕ
      → ℕ
      → SendError
      → Result SendError A × List (ℕ × SelectedSlot)
  send_loop input attempts zero i last =
      if_selected (select_unused_sponsor_slot hash siloed_nullifier input (attempts i).snapshot)
        (λ selected. (err last, []))
  send_loop input attempts (suc rounds) i last =
      if_selected (select_unused_sponsor_slot hash siloed_nullifier input (attempts i).snapshot)
        (λ selected.
          if_sent ((attempts i).send selected.slot) (i, selected)
            (λ f.
              let rest = send_loop input attempts rounds (i + 1) (send_failed f) in
              go_on (is_collision input (attempts i) selected f) (i, selected) f rest))

  unfoldable pub send_with_available_sponsor_slot {ℓ} :
      {A : Type ℓ}
      → SponsorAllowanceInput
      → (ℕ → Attempt A)
      → Result SendError A × List (ℕ × SelectedSlot)
  unfolding send_loop
  send_with_available_sponsor_slot input attempts =
      send_loop input attempts slot_count 0 no_collision
