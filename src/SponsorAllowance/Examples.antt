-- ===== src/SponsorAllowance/Examples.antt =====
-- The theorems on sponsored slots at a small hash.
use magna_monorepo.Base.{
  ℕ, zero, suc, ◌+◌, ◌≡◌, ◌↔◌, refl, true, ltb, ◌==◌, List, [], ◌∷◌, none, some, ok, err,
}
use magna_monorepo.Base.Numbers.{pos}
use magna_monorepo.Core.Values.{integer}
use magna_monorepo.SponsorAllowance.{
  StatusFields, SponsorAllowanceInput, Snapshot, SelectedSlot, select_unused_sponsor_slot,
  exhausted, Attempt, sent, failed, send_with_available_sponsor_slot, count_unused, slot_nullifiers,
  find_unused,
}
use magna_monorepo.SponsorAllowance.Selection.{
  IsSelected, IsExhausted, select_unused_sponsor_slot_sound, select_unused_sponsor_slot_exhausted,
}
use magna_monorepo.SponsorAllowance.Sending.{GoodSends, send_with_available_sponsor_slot-GoodSends}

-- The last value that is hashed, and a thousand for each value and for the separator.
abbrev toy_hash : List ℕ → ℕ → ℕ
toy_hash [] ds = ds
toy_hash (v ∷ []) ds = v
toy_hash (v ∷ w ∷ vs) ds = 1000 + toy_hash (w ∷ vs) ds

abbrev note_fields : StatusFields
note_fields = record { secret = 7; credential_type = 3; claims = 9 }

abbrev wants : ℕ → SponsorAllowanceInput
wants n = record {
  issuer_address = 1;
  credential_type = 3;
  claims_hash = 9;
  status_note = some note_fields;
  required_slots = some (integer (pos n));
}

-- The first slot is spent.
abbrev one_spent : Snapshot
one_spent = record {
  anchor_timestamp = some 90000;
  block_timestamp = some 180000;
  has_nullifier = λ n. n == 5000;
}

abbrev second_slot : SelectedSlot
second_slot = record { slot = 1; nullifier = 5001; resets_at = 172800 }

second_selected : select_unused_sponsor_slot toy_hash 4 (wants 2) one_spent ≡ ok second_slot
unfolding select_unused_sponsor_slot find_unused count_unused slot_nullifiers
second_selected = refl

select_unused_sponsor_slot_sound_example : IsSelected toy_hash 4 (wants 2) one_spent second_slot
select_unused_sponsor_slot_sound_example =
    select_unused_sponsor_slot_sound toy_hash 4 (wants 2) one_spent second_slot second_selected

four_are_few :
    select_unused_sponsor_slot toy_hash 4 (wants 5) one_spent ≡ err (exhausted 172800 true)
unfolding select_unused_sponsor_slot find_unused count_unused slot_nullifiers
four_are_few = refl

select_unused_sponsor_slot_exhausted_example :
    (select_unused_sponsor_slot toy_hash 4 (wants 5) one_spent ≡ err (exhausted 172800 true))
    ↔ IsExhausted toy_hash 4 (wants 5) one_spent 172800 true
select_unused_sponsor_slot_exhausted_example =
    select_unused_sponsor_slot_exhausted toy_hash 4 (wants 5) one_spent 172800 true

-- The first send collides, the second goes through.
abbrev two_attempts : ℕ → Attempt ℕ
two_attempts zero = record {
  snapshot = one_spent;
  send = λ slot. failed (record { simulation_failed = true; duplicate = some 5001 });
  retry_timestamp = none;
  latest_nullifier = λ n. n == 5001;
}
two_attempts (suc i) = record {
  snapshot = record one_spent { has_nullifier = λ n. ltb n 5002 };
  send = λ slot. sent slot;
  retry_timestamp = none;
  latest_nullifier = λ n. n == 5001;
}

send_with_available_sponsor_slot-GoodSends_example :
    GoodSends toy_hash 4
      (wants 1)
      two_attempts
      5
      (send_with_available_sponsor_slot toy_hash 4 (wants 1) two_attempts).1
send_with_available_sponsor_slot-GoodSends_example =
    send_with_available_sponsor_slot-GoodSends toy_hash 4 (wants 1) two_attempts
