-- ===== src/SponsorAllowance/Selection.antt =====
-- The slot that `selectUnusedSponsorSlot` selects.
use magna_monorepo.Base.{
  ℕ, zero, suc, ◌+◌, ◌*◌, ◌/◌, ◌≤◌, ◌%◌, ◌<◌, ◌≡◌, ◌↔◌, ◌⊎◌, refl, ap, subst, Bool, true, false,
  not, count, map, List, [], ◌∷◌, Option, none, some, ok, err, lt→ltb, >>=-eq-ok, >>=-eq-err, ltb,
  Bool-cases, inl, inr, arith, get_elem?,
}
use magna_monorepo.Base.Numbers.{pos, negsuc}
use magna_monorepo.Core.Values.{Number, integer, not_integer}
use magna_monorepo.SponsorAllowance.{
  StatusFields, SponsorAllowanceInput, Snapshot, SelectedSlot, find_unused, count_unused,
  slot_or_exhausted, slot_nullifier, slot_nullifiers, select_unused_sponsor_slot, status_fields,
  required, window_timestamp, exhausted,
}

-- The first unused nullifier, with its place, is found.
find_unused-some :
    (has : ℕ → Bool) (ns : List ℕ) (i slot n : ℕ)
    → find_unused has ns i ≡ some (slot, n)
    → (k : ℕ) × (slot ≡ i + k) × (get_elem? ns k ≡ some n) × (has n ≡ false)
find_unused-some has [] i slot n e = absurd (unfold find_unused in ground arith)
find_unused-some has (m ∷ ns) i slot n e = elim (Bool-cases (has m)) [
  | inl used ↦
      let later : find_unused has ns (i + 1) ≡ some (slot, n) =
        unfold find_unused in ground arith in
      let (k, at_k, there, free) = find_unused-some has ns (i + 1) slot n later in
      (suc k, omega arith, there, free)
  | inr free ↦
      let same_slot : i ≡ slot = unfold find_unused in ground arith in
      let same : m ≡ n = unfold find_unused in ground arith in
      (0, omega arith, ap some same, subst (λ x. has x ≡ false) same free)
]

slot_or_exhausted_sound :
    (found : Option (ℕ × ℕ)) (available wanted resets_at : ℕ) (r : SelectedSlot)
    → slot_or_exhausted found available wanted resets_at ≡ ok r
    → (found ≡ some (r.slot, r.nullifier)) × (resets_at ≡ r.resets_at) × (wanted ≤ available)
unfolding slot_or_exhausted
slot_or_exhausted_sound none available wanted resets_at r h = absurd (ground arith)
slot_or_exhausted_sound (some (slot, nullifier)) available wanted resets_at r h =
    let enough : wanted ≤ available = ground arith in
    let made : record { slot = slot; nullifier = nullifier; resets_at = resets_at } ≡ r =
      ground arith in
    (
      ap (λ (q : SelectedSlot). some (q.slot, q.nullifier)) made,
      ap (λ (q : SelectedSlot). q.resets_at) made,
      enough,
    )

required-range : (o : Option Number) (n : ℕ) → required o ≡ ok n → (1 ≤ n) × (n ≤ 5)
unfolding required
required-range none n h = (ground arith, ground arith)
required-range (some (integer (pos m))) n h = (ground arith, ground arith)
required-range (some (integer (negsuc m))) n h = cc
required-range (some not_integer) n h = cc

required-ne-exhausted :
    (o : Option Number) (t : ℕ) (l : Bool) → required o ≡ err (exhausted t l) → ⊥
unfolding required
required-ne-exhausted none t l h = cc
required-ne-exhausted (some (integer (pos m))) t l h = ground arith
required-ne-exhausted (some (integer (negsuc m))) t l h = cc
required-ne-exhausted (some not_integer) t l h = cc

status_fields-ne-exhausted :
    (input : SponsorAllowanceInput) (t : ℕ) (l : Bool)
    → status_fields input ≡ err (exhausted t l)
    → ⊥
unfolding status_fields
status_fields-ne-exhausted input t l h = ground arith

window_timestamp-ne-exhausted :
    (s : Snapshot) (t : ℕ) (l : Bool) → window_timestamp s ≡ err (exhausted t l) → ⊥
unfolding window_timestamp
window_timestamp-ne-exhausted s t l h = ground arith

find_unused-none :
    (has : ℕ → Bool) (ns : List ℕ) (i : ℕ) → find_unused has ns i ≡ none → count_unused has ns ≡ 0
unfolding find_unused count_unused
find_unused-none has [] i h = refl
find_unused-none has (n ∷ ns) i h = ground (arith, find_unused-none has ns (i + 1))

-- Too few are available, or none is found.
slot_or_exhausted-err :
    (found : Option (ℕ × ℕ)) (available wanted resets_at t : ℕ) (l : Bool)
    → slot_or_exhausted found available wanted resets_at ≡ err (exhausted t l)
    → (resets_at ≡ t) × (ltb 0 available ≡ l) × ((available < wanted) ⊎ (found ≡ none))
unfolding slot_or_exhausted
slot_or_exhausted-err none available wanted resets_at t l h = (ground arith, ground arith, inr refl)
slot_or_exhausted-err (some (slot, nullifier)) available wanted resets_at t l h =
    (ground arith, ground arith, inl (ground arith))

module _ (hash : List ℕ → ℕ → ℕ) (siloed_nullifier : ℕ) where
  -- What a selection promises for the window that starts at `window_id` days.
  pub record IsSelected (input : SponsorAllowanceInput) (snapshot : Snapshot) (r : SelectedSlot)
      : Type 0 where
    pub status : StatusFields
    pub timestamp : ℕ
    pub status_is : status_fields input ≡ ok status
    pub timestamp_is : window_timestamp snapshot ≡ ok timestamp
    pub slot_in_range : r.slot < 5
    pub nullifier_is :
        r.nullifier ≡ slot_nullifier hash siloed_nullifier input status (timestamp / 86400) r.slot
    pub unspent : snapshot.has_nullifier r.nullifier ≡ false
    pub resets_later : timestamp < r.resets_at
    pub resets_soon : r.resets_at ≤ timestamp + 86400

  nullifier_at :
      (input : SponsorAllowanceInput) (s : StatusFields) (w k n : ℕ)
      → get_elem? (slot_nullifiers hash siloed_nullifier input s w) k ≡ some n
      → (k < 5) × (n ≡ slot_nullifier hash siloed_nullifier input s w k)
  unfolding slot_nullifiers
  nullifier_at input s w zero n h = (omega arith, ground arith)
  nullifier_at input s w (suc zero) n h = (omega arith, ground arith)
  nullifier_at input s w (suc (suc zero)) n h = (omega arith, ground arith)
  nullifier_at input s w (suc (suc (suc zero))) n h = (omega arith, ground arith)
  nullifier_at input s w (suc (suc (suc (suc zero)))) n h = (omega arith, ground arith)
  nullifier_at input s w (suc (suc (suc (suc (suc k))))) n h = cc

  -- A slot that is selected is one of the five of the day of the wallet's anchor, or else of the latest
  -- block, its nullifier is not in the tree, and the allowance resets within a day of that time.
  pub select_unused_sponsor_slot_sound :
      (input : SponsorAllowanceInput) (snapshot : Snapshot) (r : SelectedSlot)
      → select_unused_sponsor_slot hash siloed_nullifier input snapshot ≡ ok r
      → IsSelected input snapshot r
  unfolding select_unused_sponsor_slot
  select_unused_sponsor_slot_sound input snapshot r h =
      let (wanted, e₁, h₁) = >>=-eq-ok (required input.required_slots) _ h in
      let (s, e₂, h₂) = >>=-eq-ok (status_fields input) _ h₁ in
      let (t, e₃, h₃) = >>=-eq-ok (window_timestamp snapshot) _ h₂ in
      let (found, resets, _) = slot_or_exhausted_sound _ _ wanted _ r h₃ in
      let (k, at_k, there, free) =
        find_unused-some snapshot.has_nullifier
          (slot_nullifiers hash siloed_nullifier input s (t / 86400)) 0 r.slot r.nullifier found in
      let same : k ≡ r.slot = omega arith in
      let (below, is) = nullifier_at input s (t / 86400) k r.nullifier there in
      record {
        status = s;
        timestamp = t;
        status_is = e₂;
        timestamp_is = e₃;
        slot_in_range = omega arith;
        nullifier_is =
            subst (λ j. r.nullifier ≡ slot_nullifier hash siloed_nullifier input s (t / 86400) j)
              same is;
        unspent = free;
        resets_later = omega arith;
        resets_soon = omega arith;
      }

  -- Whether the nullifier of a slot is not in the tree.
  abbrev pub is_unspent : SponsorAllowanceInput → Snapshot → StatusFields → ℕ → ℕ → Bool
  is_unspent input snapshot s window_id slot =
      not (snapshot.has_nullifier (slot_nullifier hash siloed_nullifier input s window_id slot))

  unfoldable pub unspent_slots : SponsorAllowanceInput → Snapshot → StatusFields → ℕ → ℕ
  unspent_slots input snapshot s window_id =
      count (is_unspent input snapshot s window_id) (0 ∷ 1 ∷ 2 ∷ 3 ∷ 4 ∷ [])

  count_unused-slots :
      (input : SponsorAllowanceInput) (snapshot : Snapshot) (s : StatusFields) (w : ℕ)
      (slots : List ℕ)
      → count_unused snapshot.has_nullifier
          (map (slot_nullifier hash siloed_nullifier input s w) slots)
        ≡ count (is_unspent input snapshot s w) slots
  unfolding count_unused
  count_unused-slots input snapshot s w [] = refl
  count_unused-slots input snapshot s w (k ∷ slots) =
      ground (arith, count_unused-slots input snapshot s w slots)

  count_unused-unspent :
      (input : SponsorAllowanceInput) (snapshot : Snapshot) (s : StatusFields) (w : ℕ)
      → count_unused snapshot.has_nullifier (slot_nullifiers hash siloed_nullifier input s w)
        ≡ unspent_slots input snapshot s w
  unfolding slot_nullifiers unspent_slots
  count_unused-unspent input snapshot s w =
      count_unused-slots input snapshot s w (0 ∷ 1 ∷ 2 ∷ 3 ∷ 4 ∷ [])

  -- Why an allowance is exhausted: fewer of the day's five slots are unspent than were asked for. It
  -- resets with the day, and `some_left` tells whether any slot is unspent.
  pub record IsExhausted (input : SponsorAllowanceInput) (snapshot : Snapshot) (resets_at : ℕ)
      (some_left : Bool) : Type 0 where
    pub wanted : ℕ
    pub status : StatusFields
    pub timestamp : ℕ
    pub wanted_is : required input.required_slots ≡ ok wanted
    pub status_is : status_fields input ≡ ok status
    pub timestamp_is : window_timestamp snapshot ≡ ok timestamp
    pub few : unspent_slots input snapshot status (timestamp / 86400) < wanted
    pub resets_later : timestamp < resets_at
    pub resets_soon : resets_at ≤ timestamp + 86400
    pub at_midnight : resets_at % 86400 ≡ 0
    pub left_iff :
        (some_left ≡ true) ↔ (0 < unspent_slots input snapshot status (timestamp / 86400))

  exhausted_sound :
      (input : SponsorAllowanceInput) (snapshot : Snapshot) (resets_at : ℕ) (some_left : Bool)
      → select_unused_sponsor_slot hash siloed_nullifier input snapshot
        ≡ err (exhausted resets_at some_left)
      → IsExhausted input snapshot resets_at some_left
  unfolding select_unused_sponsor_slot
  exhausted_sound input snapshot resets_at some_left h =
      elim (>>=-eq-err (required input.required_slots) _ h) [
        | inl e ↦ absurd (required-ne-exhausted input.required_slots resets_at some_left e)
        | inr (wanted, wanted_is, h₁) ↦ elim (>>=-eq-err (status_fields input) _ h₁) [
          | inl e ↦ absurd (status_fields-ne-exhausted input resets_at some_left e)
          | inr (s, status_is, h₂) ↦ elim (>>=-eq-err (window_timestamp snapshot) _ h₂) [
            | inl e ↦ absurd (window_timestamp-ne-exhausted snapshot resets_at some_left e)
            | inr (t, timestamp_is, h₃) ↦
                let ns = slot_nullifiers hash siloed_nullifier input s (t / 86400) in
                let (resets, left, why) =
                  slot_or_exhausted-err (find_unused snapshot.has_nullifier ns 0) _ wanted _
                    resets_at some_left h₃ in
                let (low, high) = required-range input.required_slots wanted wanted_is in
                let same = count_unused-unspent input snapshot s (t / 86400) in
                record {
                  wanted = wanted;
                  status = s;
                  timestamp = t;
                  wanted_is = wanted_is;
                  status_is = status_is;
                  timestamp_is = timestamp_is;
                  few = elim why [
                    | inl less ↦ omega (arith, same, less)
                    | inr nothing ↦
                        omega
                          (arith, same, low, find_unused-none snapshot.has_nullifier ns 0 nothing)
                  ];
                  resets_later = omega (arith, resets);
                  resets_soon = omega (arith, resets);
                  at_midnight = omega (arith, resets);
                  left_iff = ground (arith, same, left);
                }
          ]
        ]
      ]

  exhausted_complete :
      (input : SponsorAllowanceInput) (snapshot : Snapshot) (resets_at : ℕ) (some_left : Bool)
      → IsExhausted input snapshot resets_at some_left
      → select_unused_sponsor_slot hash siloed_nullifier input snapshot
        ≡ err (exhausted resets_at some_left)
  unfolding select_unused_sponsor_slot slot_or_exhausted
  exhausted_complete input snapshot resets_at some_left is =
      let w = is.timestamp / 86400 in
      let same = count_unused-unspent input snapshot is.status w in
      let (there, back) = is.left_iff in
      let midnight : (w + 1) * 86400 ≡ resets_at =
        omega (arith, is.resets_later, is.resets_soon, is.at_midnight) in
      rw (is.wanted_is, is.status_is, is.timestamp_is, same, lt→ltb _ _ is.few, midnight)
        (ground arith)

  -- The selection says that the allowance is exhausted exactly when the number of slots asked for, the
  -- note and the time can be read, and fewer of that day's five slots are unspent than were asked for.
  -- It says that the allowance resets at the next midnight after the wallet's anchor, or else after the
  -- latest block, and whether any slot is left.
  pub select_unused_sponsor_slot_exhausted :
      (input : SponsorAllowanceInput) (snapshot : Snapshot) (resets_at : ℕ) (some_left : Bool)
      → (select_unused_sponsor_slot hash siloed_nullifier input snapshot
          ≡ err (exhausted resets_at some_left))
        ↔ IsExhausted input snapshot resets_at some_left
  select_unused_sponsor_slot_exhausted input snapshot resets_at some_left = (
    exhausted_sound input snapshot resets_at some_left,
    exhausted_complete input snapshot resets_at some_left,
  )
