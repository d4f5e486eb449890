-- ===== src/SessionBroker/Requester/Chosen.antt =====
-- Whose outcome a login that is handed to another tab takes.
use magna_monorepo.Base.{
  ℕ, ◌≡◌, refl, sym, subst, ap, Bool, true, false, not, ◌&&◌, ◌||◌, List, [], ◌∷◌, ◌++◌, Option,
  none, some, Result, ok, err, if◌then◌else◌, Bool-cases, inl, inr, arith, if_holds, ◌⊎◌,
}
use magna_monorepo.Base.Texts.{text_eq, text_eq_iff}
use magna_monorepo.Core.Values.{Value}
use magna_monorepo.Core.ConnectorProtocol.{has}
use magna_monorepo.SessionBroker.Messages.{
  WireError, BrokerMessage, probe, available, execute, started, success, failure, webauthn_request,
  webauthn_success, webauthn_failure, request_of, is_broker_message, is_filled, is_set,
}
use magna_monorepo.SessionBroker.Requester.{
  RequesterEffect, post, broker_selected, perform, resolve_unhandled, resolve_handled,
  reject_timeout, reject_error, Requester, RequesterState, RequesterEvent, received,
  discovery_elapsed, completion_elapsed, performed, probing, add_effects, finish, note_conflict,
  select_broker, same_id, on_available, decode_challenge, perform_or_fail, on_webauthn_request,
  is_selected, on_broker_reply, on_received, assertion_reply, on_performed, requester_step,
  run_requester,
}

-- Whether the promise is resolved with this outcome.
abbrev pub Handles : Value → List RequesterEffect → Type 0
Handles v [] = ⊥
Handles v (resolve_handled w ∷ effects) = (w ≡ v) ⊎ Handles v effects
Handles v (_ ∷ effects) = Handles v effects

-- A broker's answer to this request, with a credential that the request may have.
abbrev pub Offers : Requester → List ℕ → RequesterEvent → Type 0
Offers me b (received (available r a c)) =
    (r ≡ me.request_id)
    × (a ≡ b)
    × ((is_set me.target_credential_id ≡ false) ⊎ (same_id c me.target_credential_id ≡ true))
Offers me b _ = ⊥

-- A broker's outcome of this request.
abbrev pub Reports : Requester → List ℕ → Value → RequesterEvent → Type 0
Reports me b v (received (success r a outcome)) = (r ≡ me.request_id) × (a ≡ b) × (outcome ≡ v)
Reports me b v _ = ⊥

abbrev pub SomeEvent : (RequesterEvent → Type 0) → List RequesterEvent → Type 0
SomeEvent P [] = ⊥
SomeEvent P (e ∷ events) = P e ⊎ SomeEvent P events

Handles-append :
    (v : Value) (xs ys : List RequesterEffect) → Handles v (xs ++ ys) → Handles v xs ⊎ Handles v ys
Handles-append v [] ys h = inr h
Handles-append v (resolve_handled w ∷ xs) ys (inl e) = inl (inl e)
Handles-append v (resolve_handled w ∷ xs) ys (inr h) = elim (Handles-append v xs ys h) [
  | inl k ↦ inl (inr k)
  | inr k ↦ inr k
]
Handles-append v (post m ∷ xs) ys h = Handles-append v xs ys h
Handles-append v (broker_selected ∷ xs) ys h = Handles-append v xs ys h
Handles-append v (perform b a c t ∷ xs) ys h = Handles-append v xs ys h
Handles-append v (resolve_unhandled ids ∷ xs) ys h = Handles-append v xs ys h
Handles-append v (reject_timeout ∷ xs) ys h = Handles-append v xs ys h
Handles-append v (reject_error e ∷ xs) ys h = Handles-append v xs ys h

-- What a step adds: a new broker that is selected was offered by the event, and an outcome that is
-- taken was reported by it, from the broker that was selected.
abbrev pub Explains : Requester → RequesterEvent → RequesterState → RequesterState → Type 0
Explains me e before after =
    ((b : List ℕ) → after.selected ≡ some b → (before.selected ≡ some b) ⊎ Offers me b e)
    × ((v : Value)
        → Handles v after.log
        → Handles v before.log ⊎ ((b : List ℕ) × (before.selected ≡ some b) × Reports me b v e))

unchanged : (me : Requester) (e : RequesterEvent) (s : RequesterState) → Explains me e s s
unchanged me e s = (λ b h. inl h, λ v h. inl h)

finish-Explains :
    (me : Requester) (e : RequesterEvent) (settlement : RequesterEffect) (s : RequesterState)
    → ((v : Value)
        → Handles v (settlement ∷ [])
        → (b : List ℕ) × (s.selected ≡ some b) × Reports me b v e)
    → Explains me e s (finish settlement s)
unfolding finish
finish-Explains me e settlement s why = (
  λ b h. inl h,
  λ v h. elim (Handles-append v s.log (settlement ∷ []) h) [
    | inl before ↦ inl before
    | inr now ↦ inr (why v now)
  ],
)

add_effects-Explains :
    (me : Requester) (e : RequesterEvent) (effects : List RequesterEffect) (s : RequesterState)
    → ((v : Value) → Handles v effects → ⊥)
    → Explains me e s (add_effects effects s)
unfolding add_effects
add_effects-Explains me e effects s never = (
  λ b h. inl h,
  λ v h. elim (Handles-append v s.log effects h) [
    | inl before ↦ inl before
    | inr now ↦ absurd (never v now)
  ],
)

note_conflict-Explains :
    (me : Requester) (e : RequesterEvent) (c : Option (List ℕ)) (s : RequesterState)
    → Explains me e s (note_conflict c s)
note_conflict-Explains me e none s = unchanged me e s
note_conflict-Explains me e (some c) s =
    if_holds (Explains me e s) (not (is_filled c) || has s.conflicting c) (unchanged me e s)
      (λ b h. inl h, λ v h. inl h)

may_have : (set same : Bool) → (set && not same) ≡ false → (set ≡ false) ⊎ (same ≡ true)
may_have false same h = inl refl
may_have true true h = inr refl
may_have true false h = cc

some_injective : (a b : List ℕ) → some a ≡ some b → a ≡ b
some_injective a b h = cc

on_available-Explains :
    (me : Requester) (b : List ℕ) (c : Option (List ℕ)) (s : RequesterState)
    → Explains me (received (available me.request_id b c)) s (on_available me b c s)
unfolding on_available select_broker
on_available-Explains me b c s =
    elim (Bool-cases (is_set me.target_credential_id && not (same_id c me.target_credential_id))) [
      | inl other ↦
          let is : on_available me b c s ≡ note_conflict c s = rw other refl in
          subst (Explains me (received (available me.request_id b c)) s) (sym is)
            (note_conflict-Explains me (received (available me.request_id b c)) c s)
      | inr ours ↦
          let is : on_available me b c s ≡ select_broker me b s = rw ours refl in
          subst (Explains me (received (available me.request_id b c)) s) (sym is) (
            λ a h. inr (refl, some_injective b a h, may_have _ _ ours),
            λ v h.
                elim (Handles-append v s.log
                  (broker_selected ∷ post (BrokerMessage.execute me.request_id b me.input) ∷ [])
                  h) [ inl before ↦ inl before | inr never ↦ absurd never ],
          )
    ]

is_selected_sound : (o : Option (List ℕ)) (b : List ℕ) → is_selected o b ≡ true → o ≡ some b
is_selected_sound none b h = cc
is_selected_sound (some a) b h =
    let same : b ≡ a = (text_eq_iff b a).0 (ground arith) in ap some (sym same)

if_selected-Explains :
    (me : Requester) (e : RequesterEvent) (b : List ℕ) (s t : RequesterState)
    → (s.selected ≡ some b → Explains me e s t)
    → Explains me e s (if is_selected s.selected b then t else s)
if_selected-Explains me e b s t why = elim (Bool-cases (is_selected s.selected b)) [
  | inl ours ↦
      let is : (if is_selected s.selected b then t else s) ≡ t = rw ours refl in
      subst (Explains me e s) (sym is) (why (is_selected_sound s.selected b ours))
  | inr other ↦
      let is : (if is_selected s.selected b then t else s) ≡ s = rw other refl in
      subst (Explains me e s) (sym is) (unchanged me e s)
]

perform_or_fail-silent :
    (me : Requester) (b a c : List ℕ) (challenge : Result WireError (List ℕ)) (v : Value)
    → Handles v (perform_or_fail me b a c challenge ∷ [])
    → ⊥
perform_or_fail-silent me b a c (ok bytes) v h = h
perform_or_fail-silent me b a c (err e) v h = h

on_webauthn_request-silent :
    (me : Requester) (b a c challenge : List ℕ) (v : Value)
    → Handles v (on_webauthn_request me b a c challenge ∷ [])
    → ⊥
unfolding on_webauthn_request
on_webauthn_request-silent me b a c challenge v =
    if_holds (λ e. Handles v (e ∷ []) → ⊥) me.can_perform
      (perform_or_fail-silent me b a c (decode_challenge challenge) v) (λ h. h)

on_broker_reply-Explains :
    (me : Requester) (message : BrokerMessage) (s : RequesterState)
    → request_of message ≡ me.request_id
    → Explains me (received message) s (on_broker_reply me message s)
unfolding on_broker_reply request_of
on_broker_reply-Explains me (available r b c) s mine =
    if_holds (Explains me (received (available r b c)) s) (not (is_set s.selected))
      (subst (λ k. Explains me (received (available k b c)) s (on_available me b c s)) (sym mine)
        (on_available-Explains me b c s))
      (unchanged me (received (available r b c)) s)
on_broker_reply-Explains me (webauthn_request r b a c challenge) s mine =
    if_selected-Explains me (received (webauthn_request r b a c challenge)) b s _ (λ _.
      add_effects-Explains me (received (webauthn_request r b a c challenge))
        (on_webauthn_request me b a c challenge ∷ []) s
        (on_webauthn_request-silent me b a c challenge))
on_broker_reply-Explains me (success r b outcome) s mine =
    if_selected-Explains me (received (success r b outcome)) b s _ (λ chosen.
      finish-Explains me (received (success r b outcome)) (resolve_handled outcome) s
        (λ v h. elim h [ inl same ↦ (b, chosen, (mine, refl, same)) | inr never ↦ absurd never ]))
on_broker_reply-Explains me (failure r b e) s mine =
    if_selected-Explains me (received (failure r b e)) b s _
      (λ _. finish-Explains me (received (failure r b e)) (reject_error e) s (λ v h. absurd h))
on_broker_reply-Explains me (probe r) s mine = unchanged me (received (probe r)) s
on_broker_reply-Explains me (execute r b input) s mine =
    unchanged me (received (execute r b input)) s
on_broker_reply-Explains me (started r b) s mine = unchanged me (received (started r b)) s
on_broker_reply-Explains me (webauthn_success r b a wire) s mine =
    unchanged me (received (webauthn_success r b a wire)) s
on_broker_reply-Explains me (webauthn_failure r b a e) s mine =
    unchanged me (received (webauthn_failure r b a e)) s

requester_step-Explains :
    (me : Requester) (e : RequesterEvent) (s : RequesterState)
    → Explains me e s (requester_step me e s)
unfolding requester_step on_received on_performed
requester_step-Explains me (received message) s =
    elim (Bool-cases (text_eq (request_of message) me.request_id)) [
      | inl mine ↦
          if_holds (Explains me (received message) s)
            (s.finished
              || not (is_broker_message message)
              || not (text_eq (request_of message) me.request_id))
            (unchanged me (received message) s)
            (on_broker_reply-Explains me message s ((text_eq_iff _ me.request_id).0 mine))
      | inr other ↦
          let out : (s.finished
                || not (is_broker_message message)
                || not (text_eq (request_of message) me.request_id))
              ≡ true =
            ground (arith, other) in
          let is : on_received me message s ≡ s = rw out refl in
          subst (Explains me (received message) s) (sym is) (unchanged me (received message) s)
    ]
requester_step-Explains me discovery_elapsed s =
    if_holds (Explains me discovery_elapsed s) s.discovering
      (finish-Explains me discovery_elapsed (resolve_unhandled s.conflicting) s (λ v h. absurd h))
      (unchanged me discovery_elapsed s)
requester_step-Explains me completion_elapsed s =
    if_holds (Explains me completion_elapsed s) s.completing
      (finish-Explains me completion_elapsed reject_timeout s (λ v h. absurd h))
      (unchanged me completion_elapsed s)
requester_step-Explains me (performed b a result) s =
    if_holds (Explains me (performed b a result) s) s.finished
      (unchanged me (performed b a result) s)
      (add_effects-Explains me (performed b a result) (post (assertion_reply me b a result) ∷ []) s
        (λ v h. h))

-- The broker was selected already or is offered, and it reports the outcome.
abbrev pub ChosenReports : Requester → RequesterState → List RequesterEvent → Value → Type 0
ChosenReports me s events v =
    (b : List ℕ) × ((s.selected ≡ some b) ⊎ SomeEvent (Offers me b) events)
    × SomeEvent (Reports me b v) events

run_requester-from :
    (me : Requester) (events : List RequesterEvent) (s : RequesterState) (v : Value)
    → Handles v (run_requester me events s).log
    → Handles v s.log ⊎ ChosenReports me s events v
unfolding run_requester
run_requester-from me [] s v h = inl h
run_requester-from me (e ∷ events) s v h =
    let (chosen, taken) = requester_step-Explains me e s in
    elim (run_requester-from me events (requester_step me e s) v h) [
      | inl now ↦ elim (taken v now) [
        | inl before ↦ inl before
        | inr (b, selected, reported) ↦ inr (b, inl selected, inl reported)
      ]
      | inr (b, inl selected, reported) ↦ elim (chosen b selected) [
        | inl before ↦ inr (b, inl before, inr reported)
        | inr offered ↦ inr (b, inr (inl offered), inr reported)
      ]
      | inr (b, inr offered, reported) ↦ inr (b, inr (inr offered), inr reported)
    ]

-- A login is resolved with an outcome only if a broker reported that outcome for this request, and the
-- same broker had answered it, with the credential that was asked for if one was.
pub run_requester-trusted :
    (me : Requester) (events : List RequesterEvent) (v : Value)
    → Handles v (run_requester me events (probing me)).log
    → (b : List ℕ) × SomeEvent (Offers me b) events × SomeEvent (Reports me b v) events
unfolding probing
run_requester-trusted me events v h = elim (run_requester-from me events (probing me) v h) [
  | inl never ↦ absurd never
  | inr (b, inl selected, reported) ↦ absurd cc
  | inr (b, inr offered, reported) ↦ (b, offered, reported)
]
