-- ===== src/SessionBroker/Broker/Once.antt =====
-- How often the broker calls the functions that settle a promise.
use magna_monorepo.Base.{
  ℕ, suc, ◌+◌, ◌≤◌, ◌≡◌, refl, sym, subst, ap, Bool, true, false, not, ◌||◌, List, [], ◌∷◌, Option,
  none, some, Result, ok, err, ◌==◌, length, if◌then◌else◌, Bool-cases, Option-cases, inl, inr,
  arith, count, count-append, if_holds,
}
use magna_monorepo.Base.Texts.{text_eq, text_eq_iff}
use magna_monorepo.Base.Maps.{
  lookup, remove, entries_of, entries_of-lookup, entries_of-remove, entries_of-removed,
  entries_of-insert,
}
use magna_monorepo.Core.Values.{Value}
use magna_monorepo.Core.Bytes.{bytes_to_hex}
use magna_monorepo.SessionBroker.Messages.{
  AssertionResult, assertion_from_wire, BrokerError, assertion_timed_out, BrokerMessage, probe,
  available, execute, started, success, failure, webauthn_request, webauthn_success,
  webauthn_failure, is_broker_message,
}
use magna_monorepo.SessionBroker.Broker.{
  BrokerEffect, post, start_handler, new_promise, resolve, reject, refuse, Broker, BrokerState,
  BrokerEvent, delivered, timer_fired, assertion_requested, handler_finished, unregistered,
  registered, emit, post_open, settlement, settle, on_assertion, wire_result, start_or_decline,
  on_broker_message, on_delivered, on_timer, post_or_throw, ask_popup, with_credential,
  with_request, request_webauthn_assertion, is_active, release, outcome_message, on_finished,
  rejections, unregister, broker_step, run_broker, bad_challenge,
}

abbrev pub is_promise_of : List ℕ → BrokerEffect → Bool
is_promise_of id (new_promise a) = text_eq a id
is_promise_of id _ = false

abbrev pub is_settlement_of : List ℕ → BrokerEffect → Bool
is_settlement_of id (resolve a w) = text_eq a id
is_settlement_of id (reject a e) = text_eq a id
is_settlement_of id _ = false

-- The calls that settle promises of an id, and the pending ones, are no more than the promises made.
abbrev pub IsCalledOnce : List ℕ → BrokerState → Type 0
IsCalledOnce id s =
    count (is_settlement_of id) s.log + entries_of id s.pending ≤ count (is_promise_of id) s.log

emit-IsCalledOnce :
    (id : List ℕ) (effects : List BrokerEffect) (s : BrokerState)
    → count (is_settlement_of id) effects ≤ count (is_promise_of id) effects
    → IsCalledOnce id s
    → IsCalledOnce id (emit effects s)
unfolding emit
emit-IsCalledOnce id effects s few h = omega (
  arith,
  few,
  h,
  count-append (is_settlement_of id) s.log effects,
  count-append (is_promise_of id) s.log effects,
)

settlement-count :
    (id a : List ℕ) (result : Result BrokerError AssertionResult)
    → (count (is_settlement_of id) (settlement a result ∷ []) ≡ (if text_eq a id then 1 else 0))
      × (count (is_promise_of id) (settlement a result ∷ []) ≡ 0)
settlement-count id a (ok w) = (refl, refl)
settlement-count id a (err e) = (refl, refl)

-- An entry of the map pays for a settlement.
entries_of-paid :
    (id a : List ℕ) (pending : List (List ℕ × List ℕ)) (owner : List ℕ)
    → lookup a pending ≡ some owner
    → (if text_eq a id then 1 else 0) + entries_of id (remove a pending) ≤ entries_of id pending
entries_of-paid id a pending owner found = elim (Bool-cases (text_eq a id)) [
  | inl same ↦
      let is : a ≡ id = (text_eq_iff a id).0 same in
      let gone : entries_of id (remove a pending) ≡ 0 =
        subst (λ (k : List ℕ). entries_of id (remove k pending) ≡ 0) (sym is)
          (entries_of-removed id pending) in
      let there : 1 ≤ entries_of id pending =
        subst (λ (k : List ℕ). 1 ≤ entries_of k pending) is (entries_of-lookup a pending found) in
      rw same (omega (arith, gone, there))
  | inr other ↦ rw other (omega (arith, entries_of-remove id a pending))
]

settle-IsCalledOnce :
    (id a owner : List ℕ) (result : Result BrokerError AssertionResult) (s : BrokerState)
    → lookup a s.pending ≡ some owner
    → IsCalledOnce id s
    → IsCalledOnce id (settle a result s)
unfolding settle
settle-IsCalledOnce id a owner result s found h =
    let (one, none_made) = settlement-count id a result in
    omega (
      arith,
      h,
      one,
      none_made,
      count-append (is_settlement_of id) s.log (settlement a result ∷ []),
      count-append (is_promise_of id) s.log (settlement a result ∷ []),
      entries_of-paid id a s.pending owner found,
    )

on_assertion-IsCalledOnce :
    (id r a : List ℕ) (result : Result BrokerError AssertionResult) (s : BrokerState)
    → IsCalledOnce id s
    → IsCalledOnce id (on_assertion r a result s)
unfolding on_assertion
on_assertion-IsCalledOnce id r a result s h = elim (Option-cases (lookup a s.pending)) [
  | inl missing ↦ rw missing h
  | inr (owner, found) ↦ rw found (
      if_holds (IsCalledOnce id) (text_eq owner r) (settle-IsCalledOnce id a owner result s found h)
        h)
]

start_or_decline-IsCalledOnce :
    (id : List ℕ) (me : Broker) (busy : Option (List ℕ)) (r : List ℕ) (input : Value)
    (s : BrokerState)
    → IsCalledOnce id s
    → IsCalledOnce id (start_or_decline me busy r input s)
start_or_decline-IsCalledOnce id me (some b) r input s h = emit-IsCalledOnce id _ s (omega arith) h
start_or_decline-IsCalledOnce id me none r input s h =
    unfold emit in
    emit-IsCalledOnce id (post (started r me.broker_id) ∷ start_handler r input ∷ []) s
      (omega arith) h

on_broker_message-IsCalledOnce :
    (id : List ℕ) (me : Broker) (message : BrokerMessage) (s : BrokerState)
    → IsCalledOnce id s
    → IsCalledOnce id (on_broker_message me message s)
unfolding on_broker_message
on_broker_message-IsCalledOnce id me (webauthn_success r b a wire) s h =
    if_holds (IsCalledOnce id) (text_eq b me.broker_id)
      (on_assertion-IsCalledOnce id r a (wire_result (assertion_from_wire wire)) s h) h
on_broker_message-IsCalledOnce id me (webauthn_failure r b a e) s h =
    if_holds (IsCalledOnce id) (text_eq b me.broker_id)
      (on_assertion-IsCalledOnce id r a (err e) s h) h
on_broker_message-IsCalledOnce id me (probe r) s h = emit-IsCalledOnce id _ s (omega arith) h
on_broker_message-IsCalledOnce id me (execute r b input) s h =
    if_holds (IsCalledOnce id) (text_eq b me.broker_id)
      (start_or_decline-IsCalledOnce id me s.active_request r input s h) h
on_broker_message-IsCalledOnce id me (available r b c) s h = h
on_broker_message-IsCalledOnce id me (started r b) s h = h
on_broker_message-IsCalledOnce id me (success r b outcome) s h = h
on_broker_message-IsCalledOnce id me (failure r b e) s h = h
on_broker_message-IsCalledOnce id me (webauthn_request r b a c challenge) s h = h

on_timer-IsCalledOnce :
    (id a : List ℕ) (s : BrokerState) → IsCalledOnce id s → IsCalledOnce id (on_timer a s)
unfolding on_timer
on_timer-IsCalledOnce id a s h = elim (Option-cases (lookup a s.pending)) [
  | inl missing ↦ rw missing h
  | inr (owner, found) ↦
      rw found (settle-IsCalledOnce id a owner (err assertion_timed_out) s found h)
]

-- A promise that is made is asked for once, and no function of it is called yet.
asked-count :
    (id a : List ℕ) (closed : Bool) (message : BrokerMessage)
    → (count (is_promise_of id) (new_promise a ∷ post_or_throw closed a message ∷ [])
        ≡ (if text_eq a id then 1 else 0))
      × (count (is_settlement_of id) (new_promise a ∷ post_or_throw closed a message ∷ []) ≡ 0)
asked-count id a true message = (refl, refl)
asked-count id a false message = (refl, refl)

ask_popup-IsCalledOnce :
    (id : List ℕ) (me : Broker) (r c challenge a : List ℕ) (s : BrokerState)
    → IsCalledOnce id s
    → IsCalledOnce id (ask_popup me r c challenge a s)
unfolding ask_popup
ask_popup-IsCalledOnce id me r c challenge a s h =
    let message = webauthn_request r me.broker_id a c (bytes_to_hex challenge) in
    let asked = new_promise a ∷ post_or_throw s.closed a message ∷ [] in
    let (one, nothing) = asked-count id a s.closed message in
    omega (
      arith,
      h,
      one,
      nothing,
      count-append (is_settlement_of id) s.log asked,
      count-append (is_promise_of id) s.log asked,
      entries_of-insert id a r s.pending,
    )

rejections-count :
    (id : List ℕ) (pending : List (List ℕ × List ℕ))
    → (count (is_settlement_of id) (rejections pending) ≡ entries_of id pending)
      × (count (is_promise_of id) (rejections pending) ≡ 0)
unfolding entries_of
rejections-count id [] = (refl, refl)
rejections-count id ((a, r) ∷ pending) =
    let (same, nothing) = rejections-count id pending in
    (ap (λ (k : ℕ). if text_eq a id then suc k else k) same, nothing)

unregister-IsCalledOnce :
    (id : List ℕ) (s : BrokerState) → IsCalledOnce id s → IsCalledOnce id (unregister s)
unfolding unregister entries_of
unregister-IsCalledOnce id s h =
    let (all_pending, nothing) = rejections-count id s.pending in
    omega (
      arith,
      h,
      all_pending,
      nothing,
      count-append (is_settlement_of id) s.log (rejections s.pending),
      count-append (is_promise_of id) s.log (rejections s.pending),
    )

request-IsCalledOnce :
    (id : List ℕ) (me : Broker) (challenge a : List ℕ) (s : BrokerState)
    (active credential : Option (List ℕ))
    → IsCalledOnce id s
    → IsCalledOnce id (
        with_request active
          (λ r. with_credential credential (λ c t.
            if length challenge == 32
            then ask_popup me r c challenge a t
            else emit (refuse bad_challenge ∷ []) t))
          s)
request-IsCalledOnce id me challenge a s none credential h =
    emit-IsCalledOnce id _ s (omega arith) h
request-IsCalledOnce id me challenge a s (some r) none h = emit-IsCalledOnce id _ s (omega arith) h
request-IsCalledOnce id me challenge a s (some r) (some []) h =
    emit-IsCalledOnce id _ s (omega arith) h
request-IsCalledOnce id me challenge a s (some r) (some (c ∷ cs)) h =
    if_holds (IsCalledOnce id) (length challenge == 32)
      (ask_popup-IsCalledOnce id me r (c ∷ cs) challenge a s h)
      (emit-IsCalledOnce id (refuse bad_challenge ∷ []) s (omega arith) h)

on_finished-IsCalledOnce :
    (id : List ℕ) (me : Broker) (r : List ℕ) (result : Result BrokerError Value) (s : BrokerState)
    → IsCalledOnce id s
    → IsCalledOnce id (on_finished me r result s)
unfolding on_finished post_open release
on_finished-IsCalledOnce id me r result s h =
    let posted : IsCalledOnce id (post_open (outcome_message me r result) s) =
      if_holds (IsCalledOnce id) s.closed h
        (emit-IsCalledOnce id (post (outcome_message me r result) ∷ []) s (omega arith) h) in
    if_holds (IsCalledOnce id)
      (is_active (post_open (outcome_message me r result) s).active_request r) posted posted

broker_step-IsCalledOnce :
    (id : List ℕ) (me : Broker) (e : BrokerEvent) (s : BrokerState)
    → IsCalledOnce id s
    → IsCalledOnce id (broker_step me e s)
unfolding broker_step on_delivered request_webauthn_assertion
broker_step-IsCalledOnce id me (delivered message) s h =
    if_holds (IsCalledOnce id) (not (is_broker_message message) || s.closed) h
      (on_broker_message-IsCalledOnce id me message s h)
broker_step-IsCalledOnce id me (timer_fired a) s h = on_timer-IsCalledOnce id a s h
broker_step-IsCalledOnce id me (assertion_requested challenge a) s h =
    request-IsCalledOnce id me challenge a s s.active_request me.credential_id h
broker_step-IsCalledOnce id me (handler_finished r result) s h =
    on_finished-IsCalledOnce id me r result s h
broker_step-IsCalledOnce id me unregistered s h = unregister-IsCalledOnce id s h

run_broker-IsCalledOnce :
    (id : List ℕ) (me : Broker) (events : List BrokerEvent) (s : BrokerState)
    → IsCalledOnce id s
    → IsCalledOnce id (run_broker me events s)
unfolding run_broker
run_broker-IsCalledOnce id me [] s h = h
run_broker-IsCalledOnce id me (e ∷ events) s h =
    run_broker-IsCalledOnce id me events _ (broker_step-IsCalledOnce id me e s h)

-- Whatever happens, and in whatever order, also after the broker was closed: the functions that settle a
-- promise of an assertion id are called no more often than promises of it were made, and what is pending
-- under the id is among the promises whose functions have not been called. A `postMessage` that throws
-- rejects its promise by itself and is no such call.
pub run_broker-settles :
    (id : List ℕ) (me : Broker) (events : List BrokerEvent)
    → IsCalledOnce id (run_broker me events registered)
unfolding entries_of
run_broker-settles id me events = run_broker-IsCalledOnce id me events registered (omega arith)
