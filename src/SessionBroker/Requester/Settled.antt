-- ===== src/SessionBroker/Requester/Settled.antt =====
-- The promise of a login that is handed to another tab is settled once.
use magna_monorepo.Base.{
  ℕ, ◌≤◌, ◌≡◌, refl, sym, subst, ap, Bool, true, false, not, ◌&&◌, ◌||◌, List, [], ◌∷◌, Option,
  none, some, Result, ok, err, if◌then◌else◌, Bool-cases, inl, inr, arith, count, count-append,
  if_holds, ◌⊎◌,
}
use magna_monorepo.Base.Texts.{text_eq}
use magna_monorepo.Core.ConnectorProtocol.{has}
use magna_monorepo.SessionBroker.Messages.{
  WireError, BrokerMessage, probe, available, execute, started, success, failure, webauthn_request,
  webauthn_success, webauthn_failure, request_of, is_broker_message, is_filled, is_set,
}
use magna_monorepo.SessionBroker.Requester.{
  RequesterEffect, post, broker_selected, resolve_unhandled, resolve_handled, reject_timeout,
  reject_error, Requester, RequesterState, RequesterEvent, received, discovery_elapsed,
  completion_elapsed, performed, probing, add_effects, finish, note_conflict, select_broker,
  same_id, on_available, decode_challenge, perform_or_fail, on_webauthn_request, is_selected,
  on_broker_reply, on_received, assertion_reply, on_performed, requester_step, run_requester,
}

abbrev pub is_settlement : RequesterEffect → Bool
is_settlement (resolve_unhandled ids) = true
is_settlement (resolve_handled outcome) = true
is_settlement reject_timeout = true
is_settlement (reject_error e) = true
is_settlement _ = false

abbrev pub settled_times : Bool → ℕ
settled_times true = 1
settled_times false = 0

-- Of the flags finished, discovering and completing, one is set.
abbrev pub IsOneOf : Bool → Bool → Bool → Type 0
IsOneOf true false false = Unit
IsOneOf false true false = Unit
IsOneOf false false true = Unit
IsOneOf _ _ _ = ⊥

pub record IsWaitingOrSettled (s : RequesterState) : Type 0 where
  pub flags : IsOneOf s.finished s.discovering s.completing
  pub counted : count is_settlement s.log ≡ settled_times s.finished

not_finished : (f d c : Bool) → IsOneOf f d c → (d ≡ true) ⊎ (c ≡ true) → f ≡ false
not_finished false d c h k = refl
not_finished true true c h k = absurd h
not_finished true false true h k = absurd h
not_finished true false false h (inl wrong) = cc
not_finished true false false h (inr wrong) = cc

finish-IsWaitingOrSettled :
    (e : RequesterEffect) (s : RequesterState)
    → is_settlement e ≡ true
    → s.finished ≡ false
    → IsWaitingOrSettled s
    → IsWaitingOrSettled (finish e s)
unfolding finish
finish-IsWaitingOrSettled e s settles live h = record {
  flags = tt;
  counted = omega (
    arith,
    count-append is_settlement s.log (e ∷ []),
    h.counted,
    ap settled_times live,
    (let one : count is_settlement (e ∷ []) ≡ 1 = rw settles refl in one),
  );
}

add_effects-IsWaitingOrSettled :
    (effects : List RequesterEffect) (s : RequesterState)
    → count is_settlement effects ≡ 0
    → IsWaitingOrSettled s
    → IsWaitingOrSettled (add_effects effects s)
unfolding add_effects
add_effects-IsWaitingOrSettled effects s nothing h = record {
  flags = h.flags;
  counted = omega (arith, count-append is_settlement s.log effects, nothing, h.counted);
}

note_conflict-IsWaitingOrSettled :
    (credential : Option (List ℕ)) (s : RequesterState)
    → IsWaitingOrSettled s
    → IsWaitingOrSettled (note_conflict credential s)
note_conflict-IsWaitingOrSettled none s h = h
note_conflict-IsWaitingOrSettled (some c) s h =
    if_holds IsWaitingOrSettled (not (is_filled c) || has s.conflicting c) h
      (record { flags = h.flags; counted = h.counted })

select_broker-IsWaitingOrSettled :
    (me : Requester) (b : List ℕ) (s : RequesterState)
    → s.finished ≡ false
    → IsWaitingOrSettled s
    → IsWaitingOrSettled (select_broker me b s)
unfolding select_broker
select_broker-IsWaitingOrSettled me b s live h = record {
  flags = subst (λ f. IsOneOf f false true) (sym live) tt;
  counted = omega (
    arith,
    h.counted,
    count-append is_settlement s.log
        (broker_selected ∷ post (BrokerMessage.execute me.request_id b me.input) ∷ []),
  );
}

perform_or_fail-count :
    (me : Requester) (b a c : List ℕ) (challenge : Result WireError (List ℕ))
    → count is_settlement (perform_or_fail me b a c challenge ∷ []) ≡ 0
perform_or_fail-count me b a c (ok bytes) = refl
perform_or_fail-count me b a c (err e) = refl

on_webauthn_request-count :
    (me : Requester) (b a c challenge : List ℕ)
    → count is_settlement (on_webauthn_request me b a c challenge ∷ []) ≡ 0
unfolding on_webauthn_request
on_webauthn_request-count me b a c challenge =
    if_holds (λ e. count is_settlement (e ∷ []) ≡ 0) me.can_perform
      (perform_or_fail-count me b a c (decode_challenge challenge)) refl

on_broker_reply-IsWaitingOrSettled :
    (me : Requester) (message : BrokerMessage) (s : RequesterState)
    → s.finished ≡ false
    → IsWaitingOrSettled s
    → IsWaitingOrSettled (on_broker_reply me message s)
unfolding on_broker_reply on_available
on_broker_reply-IsWaitingOrSettled me (available r b c) s live h =
    if_holds IsWaitingOrSettled (not (is_set s.selected))
      (if_holds IsWaitingOrSettled
        (is_set me.target_credential_id && not (same_id c me.target_credential_id))
        (note_conflict-IsWaitingOrSettled c s h) (select_broker-IsWaitingOrSettled me b s live h))
      h
on_broker_reply-IsWaitingOrSettled me (webauthn_request r b a c challenge) s live h =
    if_holds IsWaitingOrSettled (is_selected s.selected b)
      (add_effects-IsWaitingOrSettled _ s (on_webauthn_request-count me b a c challenge) h) h
on_broker_reply-IsWaitingOrSettled me (success r b outcome) s live h =
    if_holds IsWaitingOrSettled (is_selected s.selected b)
      (finish-IsWaitingOrSettled (resolve_handled outcome) s refl live h) h
on_broker_reply-IsWaitingOrSettled me (failure r b e) s live h =
    if_holds IsWaitingOrSettled (is_selected s.selected b)
      (finish-IsWaitingOrSettled (reject_error e) s refl live h) h
on_broker_reply-IsWaitingOrSettled me (probe r) s live h = h
on_broker_reply-IsWaitingOrSettled me (execute r b input) s live h = h
on_broker_reply-IsWaitingOrSettled me (started r b) s live h = h
on_broker_reply-IsWaitingOrSettled me (webauthn_success r b a wire) s live h = h
on_broker_reply-IsWaitingOrSettled me (webauthn_failure r b a e) s live h = h

on_received-IsWaitingOrSettled :
    (me : Requester) (message : BrokerMessage) (s : RequesterState)
    → IsWaitingOrSettled s
    → IsWaitingOrSettled (on_received me message s)
unfolding on_received
on_received-IsWaitingOrSettled me message s h = elim (Bool-cases s.finished) [
  | inl done ↦
      (let same : on_received me message s ≡ s = rw done refl in
        subst IsWaitingOrSettled (sym same) h)
  | inr live ↦
      if_holds IsWaitingOrSettled
        (s.finished
          || not (is_broker_message message)
          || not (text_eq (request_of message) me.request_id))
        h (on_broker_reply-IsWaitingOrSettled me message s live h)
]

if_timer-IsWaitingOrSettled :
    (timer : Bool) (e : RequesterEffect) (s : RequesterState)
    → is_settlement e ≡ true
    → (timer ≡ true → s.finished ≡ false)
    → IsWaitingOrSettled s
    → IsWaitingOrSettled (if timer then finish e s else s)
if_timer-IsWaitingOrSettled true e s settles live h =
    finish-IsWaitingOrSettled e s settles (live refl) h
if_timer-IsWaitingOrSettled false e s settles live h = h

pub requester_step-IsWaitingOrSettled :
    (me : Requester) (e : RequesterEvent) (s : RequesterState)
    → IsWaitingOrSettled s
    → IsWaitingOrSettled (requester_step me e s)
unfolding requester_step on_performed
requester_step-IsWaitingOrSettled me (received message) s h =
    on_received-IsWaitingOrSettled me message s h
requester_step-IsWaitingOrSettled me discovery_elapsed s h =
    if_timer-IsWaitingOrSettled s.discovering (resolve_unhandled s.conflicting) s refl
      (λ d. not_finished _ _ _ h.flags (inl d)) h
requester_step-IsWaitingOrSettled me completion_elapsed s h =
    if_timer-IsWaitingOrSettled s.completing reject_timeout s refl
      (λ c. not_finished _ _ _ h.flags (inr c)) h
requester_step-IsWaitingOrSettled me (performed b a result) s h =
    if_holds IsWaitingOrSettled s.finished h
      (add_effects-IsWaitingOrSettled (post (assertion_reply me b a result) ∷ []) s refl h)

pub run_requester-IsWaitingOrSettled :
    (me : Requester) (events : List RequesterEvent) (s : RequesterState)
    → IsWaitingOrSettled s
    → IsWaitingOrSettled (run_requester me events s)
unfolding run_requester
run_requester-IsWaitingOrSettled me [] s h = h
run_requester-IsWaitingOrSettled me (e ∷ events) s h =
    run_requester-IsWaitingOrSettled me events _ (requester_step-IsWaitingOrSettled me e s h)

settled_times-le : (b : Bool) → settled_times b ≤ 1
settled_times-le true = omega arith
settled_times-le false = omega arith

pub probing-IsWaitingOrSettled : (me : Requester) → IsWaitingOrSettled (probing me)
unfolding probing
probing-IsWaitingOrSettled me = record { flags = tt; counted = refl }

-- Whatever arrives, and in whatever order, the promise is settled at most once.
pub run_requester-once :
    (me : Requester) (events : List RequesterEvent)
    → count is_settlement (run_requester me events (probing me)).log ≤ 1
run_requester-once me events =
    let s = run_requester me events (probing me) in
    let h =
      run_requester-IsWaitingOrSettled me events (probing me) (probing-IsWaitingOrSettled me) in
    omega (arith, h.counted, settled_times-le s.finished)
