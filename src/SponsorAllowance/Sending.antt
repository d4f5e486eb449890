-- ===== src/SponsorAllowance/Sending.antt =====
-- What `sendWithAvailableSponsorSlot` sends.
use magna_monorepo.Base.{
  ℕ, zero, suc, ◌+◌, ◌≤◌, ◌≡◌, refl, sym, subst, true, List, [], ◌∷◌, ok, length, arith, Bool-cases,
  Result-cases, ◌⊎◌, inl, inr, All,
}
use magna_monorepo.SponsorAllowance.{
  SponsorAllowanceInput, SelectedSlot, select_unused_sponsor_slot, SendFailure, SendOutcome, sent,
  failed, Attempt, SendError, is_collision, send_loop, send_with_available_sponsor_slot,
  send_failed, no_collision,
}

SendOutcome-cases {ℓ} :
    {A : Type ℓ} (o : SendOutcome A)
    → ((x : A) × (o ≡ sent x)) ⊎ ((f : SendFailure) × (o ≡ failed f))
SendOutcome-cases (sent x) = inl (x, refl)
SendOutcome-cases (failed f) = inr (f, refl)

module _ {ℓ} {A : Type ℓ} (hash : List ℕ → ℕ → ℕ) (siloed_nullifier : ℕ)
    (input : SponsorAllowanceInput) (attempts : ℕ → Attempt A) where
  -- The slot was selected on the snapshot of its attempt.
  abbrev pub WasSelected : ℕ × SelectedSlot → Type 0
  WasSelected (i, r) =
      select_unused_sponsor_slot hash siloed_nullifier input (attempts i).snapshot ≡ ok r

  -- The send failed, and was found to have collided on the chain.
  abbrev pub Collided : ℕ × SelectedSlot → Type ℓ
  Collided (i, r) =
      (f : SendFailure) × ((attempts i).send r.slot ≡ failed f)
      × (is_collision hash siloed_nullifier input (attempts i) r f ≡ true)

  -- Every send but the last collided.
  abbrev pub Retried : List (ℕ × SelectedSlot) → Type ℓ
  Retried [] = Unit
  Retried (x ∷ []) = Unit
  Retried (x ∷ y ∷ rest) = Collided x × Retried (y ∷ rest)

  abbrev pub GoodSends : ℕ → List (ℕ × SelectedSlot) → Type ℓ
  GoodSends rounds sends = (length sends ≤ rounds) × All WasSelected sends × Retried sends

  Retried-cons :
      (x : ℕ × SelectedSlot) (sends : List (ℕ × SelectedSlot))
      → Collided x
      → Retried sends
      → Retried (x ∷ sends)
  Retried-cons x [] c h = tt
  Retried-cons x (y ∷ rest) c h = (c, h)

  sends_of_last :
      (i : ℕ) (last : SendError)
      → (send_loop hash siloed_nullifier input attempts zero i last).1 ≡ []
  unfolding send_loop
  sends_of_last i last =
      elim (Result-cases
        (select_unused_sponsor_slot hash siloed_nullifier input (attempts i).snapshot)) [
          | inl (e, is) ↦ rw is refl
          | inr (r, is) ↦ rw is refl
        ]

  -- An attempt sends nothing, or it sends once and stops, or it collides and the loop goes on.
  sends_of_attempt :
      (rounds i : ℕ) (last : SendError)
      → ((send_loop hash siloed_nullifier input attempts (suc rounds) i last).1 ≡ [])
        ⊎ ((r : SelectedSlot) × WasSelected (i, r)
            × (((send_loop hash siloed_nullifier input attempts (suc rounds) i last).1
                  ≡ (i, r) ∷ [])
                ⊎ ((f : SendFailure) × Collided (i, r)
                    × ((send_loop hash siloed_nullifier input attempts (suc rounds) i last).1
                        ≡ (i, r)
                          ∷ (send_loop hash siloed_nullifier input attempts rounds
                              (i + 1)
                              (send_failed f)).1))))
  unfolding send_loop
  sends_of_attempt rounds i last =
      elim (Result-cases
        (select_unused_sponsor_slot hash siloed_nullifier input (attempts i).snapshot)) [
          | inl (e, is) ↦ inl (rw is refl)
          | inr (r, is) ↦ elim (SendOutcome-cases ((attempts i).send r.slot)) [
            | inl (x, done) ↦ inr (r, is, inl (rw is (rw done refl)))
            | inr (f, threw) ↦
                elim (Bool-cases (is_collision hash siloed_nullifier input (attempts i) r f)) [
                  | inl again ↦
                      inr (r, is, inr (f, (f, threw, again), rw is (rw threw (rw again refl))))
                  | inr other ↦ inr (r, is, inl (rw is (rw threw (rw other refl))))
                ]
          ]
        ]

  GoodSends-loop :
      (rounds i : ℕ) (last : SendError)
      → GoodSends rounds (send_loop hash siloed_nullifier input attempts rounds i last).1
  GoodSends-loop zero i last =
      subst (GoodSends zero) (sym (sends_of_last i last)) (omega arith, tt, tt)
  GoodSends-loop (suc rounds) i last = elim (sends_of_attempt rounds i last) [
    | inl is ↦ subst (GoodSends (suc rounds)) (sym is) (omega arith, tt, tt)
    | inr (r, selected, inl is) ↦
        subst (GoodSends (suc rounds)) (sym is) (omega arith, (selected, tt), tt)
    | inr (r, selected, inr (f, collided, is)) ↦
        let (short, all, retried) = GoodSends-loop rounds (i + 1) (send_failed f) in
        subst (GoodSends (suc rounds)) (sym is)
          (omega arith, (selected, all), Retried-cons (i, r) _ collided retried)
  ]

  -- At most five sends are made, each with a slot that was selected for it, and every send but the last
  -- failed and was found to have collided on the chain.
  pub send_with_available_sponsor_slot-GoodSends :
      GoodSends 5 (send_with_available_sponsor_slot hash siloed_nullifier input attempts).1
  unfolding send_with_available_sponsor_slot
  send_with_available_sponsor_slot-GoodSends = GoodSends-loop 5 0 no_collision
