-- ===== src/SessionBroker/Broker/Serial.antt =====
-- The broker runs one request at a time.
use magna_monorepo.Base.{
  ℕ, suc, ◌+◌, ◌≤◌, ◌≡◌, refl, ap, Bool, true, false, not, ◌||◌, List, [], ◌∷◌, Option, none, some,
  Result, ok, err, ◌==◌, length, if◌then◌else◌, arith, count, count-append, if_holds,
}
use magna_monorepo.Base.Texts.{text_eq}
use magna_monorepo.Base.Maps.{lookup}
use magna_monorepo.Core.Values.{Value}
use magna_monorepo.Core.Bytes.{bytes_to_hex}
use magna_monorepo.SessionBroker.Messages.{
  AssertionResult, assertion_from_wire, BrokerError, assertion_timed_out, already_processing,
  BrokerMessage, probe, available, execute, started, success, failure, webauthn_request,
  webauthn_success, webauthn_failure, is_broker_message,
}
use magna_monorepo.SessionBroker.Broker.{
  BrokerEffect, post, start_handler, new_promise, resolve, reject, refuse, Broker, BrokerState,
  BrokerEvent, delivered, timer_fired, assertion_requested, handler_finished, unregistered,
  registered, emit, post_open, settle, settle_if, expire_if, on_assertion, wire_result,
  start_or_decline, on_broker_message, on_delivered, on_timer, post_or_throw, ask_popup,
  with_credential, with_request, bad_challenge, request_webauthn_assertion, is_active, release,
  outcome_message, on_finished, rejections, unregister, broker_step, run_broker,
}

abbrev pub is_start : BrokerEffect → Bool
is_start (start_handler r input) = true
is_start _ = false

-- Room for one request more.
abbrev pub free : Option (List ℕ) → ℕ
free none = 1
free (some r) = 0

abbrev pub finishes : List BrokerEvent → ℕ
finishes [] = 0
finishes (handler_finished r result ∷ events) = suc (finishes events)
finishes (_ ∷ events) = finishes events

-- The handlers that were started, with room for one more, are at most `n`.
abbrev pub IsWithin : ℕ → BrokerState → Type 0
IsWithin n s = count is_start s.log + free s.active_request ≤ n

emit-IsWithin :
    (n : ℕ) (effects : List BrokerEffect) (s : BrokerState)
    → count is_start effects ≡ 0
    → IsWithin n s
    → IsWithin n (emit effects s)
unfolding emit
emit-IsWithin n effects s nothing h = omega (arith, h, nothing, count-append is_start s.log effects)

settle-IsWithin :
    (n : ℕ) (a : List ℕ) (result : Result BrokerError AssertionResult) (s : BrokerState)
    → IsWithin n s
    → IsWithin n (settle a result s)
unfolding settle
settle-IsWithin n a (ok w) s h = omega (arith, h, count-append is_start s.log (resolve a w ∷ []))
settle-IsWithin n a (err e) s h = omega (arith, h, count-append is_start s.log (reject a e ∷ []))

settle_if-IsWithin :
    (n : ℕ) (owner : Option (List ℕ)) (r a : List ℕ) (result : Result BrokerError AssertionResult)
    (s : BrokerState)
    → IsWithin n s
    → IsWithin n (settle_if owner r a result s)
settle_if-IsWithin n none r a result s h = h
settle_if-IsWithin n (some owner) r a result s h =
    if_holds (IsWithin n) (text_eq owner r) (settle-IsWithin n a result s h) h

start_or_decline-IsWithin :
    (n : ℕ) (me : Broker) (busy : Option (List ℕ)) (r : List ℕ) (input : Value) (s : BrokerState)
    → s.active_request ≡ busy
    → IsWithin n s
    → IsWithin n (start_or_decline me busy r input s)
start_or_decline-IsWithin n me none r input s idle h = omega (
  arith,
  h,
  ap free idle,
  count-append is_start s.log (post (started r me.broker_id) ∷ start_handler r input ∷ []),
)
start_or_decline-IsWithin n me (some b) r input s busy h =
    emit-IsWithin n (post (failure r me.broker_id already_processing) ∷ []) s refl h

on_broker_message-IsWithin :
    (n : ℕ) (me : Broker) (message : BrokerMessage) (s : BrokerState)
    → IsWithin n s
    → IsWithin n (on_broker_message me message s)
unfolding on_broker_message on_assertion
on_broker_message-IsWithin n me (webauthn_success r b a wire) s h =
    if_holds (IsWithin n) (text_eq b me.broker_id)
      (settle_if-IsWithin n (lookup a s.pending) r a (wire_result (assertion_from_wire wire)) s h) h
on_broker_message-IsWithin n me (webauthn_failure r b a e) s h =
    if_holds (IsWithin n) (text_eq b me.broker_id)
      (settle_if-IsWithin n (lookup a s.pending) r a (err e) s h) h
on_broker_message-IsWithin n me (probe r) s h =
    emit-IsWithin n (post (available r me.broker_id me.credential_id) ∷ []) s refl h
on_broker_message-IsWithin n me (execute r b input) s h =
    if_holds (IsWithin n) (text_eq b me.broker_id)
      (start_or_decline-IsWithin n me s.active_request r input s refl h) h
on_broker_message-IsWithin n me (available r b c) s h = h
on_broker_message-IsWithin n me (started r b) s h = h
on_broker_message-IsWithin n me (success r b outcome) s h = h
on_broker_message-IsWithin n me (failure r b e) s h = h
on_broker_message-IsWithin n me (webauthn_request r b a c challenge) s h = h

expire_if-IsWithin :
    (n : ℕ) (owner : Option (List ℕ)) (a : List ℕ) (s : BrokerState)
    → IsWithin n s
    → IsWithin n (expire_if owner a s)
expire_if-IsWithin n none a s h = h
expire_if-IsWithin n (some owner) a s h = settle-IsWithin n a (err assertion_timed_out) s h

asked-starts :
    (a : List ℕ) (closed : Bool) (message : BrokerMessage)
    → count is_start (new_promise a ∷ post_or_throw closed a message ∷ []) ≡ 0
asked-starts a true message = refl
asked-starts a false message = refl

ask_popup-IsWithin :
    (n : ℕ) (me : Broker) (r c challenge a : List ℕ) (s : BrokerState)
    → IsWithin n s
    → IsWithin n (ask_popup me r c challenge a s)
unfolding ask_popup
ask_popup-IsWithin n me r c challenge a s h =
    let message = webauthn_request r me.broker_id a c (bytes_to_hex challenge) in
    let asked = new_promise a ∷ post_or_throw s.closed a message ∷ [] in
    omega (arith, h, asked-starts a s.closed message, count-append is_start s.log asked)

request-IsWithin :
    (n : ℕ) (me : Broker) (challenge a : List ℕ) (s : BrokerState)
    (active credential : Option (List ℕ))
    → IsWithin n s
    → IsWithin n (
        with_request active
          (λ r. with_credential credential (λ c t.
            if length challenge == 32
            then ask_popup me r c challenge a t
            else emit (refuse bad_challenge ∷ []) t))
          s)
request-IsWithin n me challenge a s none credential h = emit-IsWithin n _ s refl h
request-IsWithin n me challenge a s (some r) none h = emit-IsWithin n _ s refl h
request-IsWithin n me challenge a s (some r) (some []) h = emit-IsWithin n _ s refl h
request-IsWithin n me challenge a s (some r) (some (c ∷ cs)) h =
    if_holds (IsWithin n) (length challenge == 32)
      (ask_popup-IsWithin n me r (c ∷ cs) challenge a s h)
      (emit-IsWithin n (refuse bad_challenge ∷ []) s refl h)

free-le : (o : Option (List ℕ)) → free o ≤ 1
free-le none = omega arith
free-le (some r) = omega arith

-- A handler that finishes makes room for one more.
release-IsWithin :
    (n : ℕ) (r : List ℕ) (s : BrokerState) → IsWithin n s → IsWithin (suc n) (release r s)
unfolding release
release-IsWithin n r s h =
    if_holds (IsWithin (suc n)) (is_active s.active_request r) (omega (arith, h)) (omega (arith, h))

rejections-starts : (pending : List (List ℕ × List ℕ)) → count is_start (rejections pending) ≡ 0
rejections-starts [] = refl
rejections-starts ((a, r) ∷ pending) = rejections-starts pending

broker_step-IsWithin :
    (n : ℕ) (me : Broker) (e : BrokerEvent) (s : BrokerState)
    → IsWithin n s
    → IsWithin (n + finishes (e ∷ [])) (broker_step me e s)
unfolding broker_step on_delivered on_timer request_webauthn_assertion on_finished post_open
    unregister
broker_step-IsWithin n me (delivered message) s h =
    let same : n + 0 ≡ n = omega arith in
    rw same (
      if_holds (IsWithin n) (not (is_broker_message message) || s.closed) h
        (on_broker_message-IsWithin n me message s h))
broker_step-IsWithin n me (timer_fired a) s h =
    let same : n + 0 ≡ n = omega arith in rw same (expire_if-IsWithin n (lookup a s.pending) a s h)
broker_step-IsWithin n me (assertion_requested challenge a) s h =
    let same : n + 0 ≡ n = omega arith in
    rw same (request-IsWithin n me challenge a s s.active_request me.credential_id h)
broker_step-IsWithin n me (handler_finished r result) s h =
    let next : n + 1 ≡ suc n = omega arith in
    let posted : IsWithin n (post_open (outcome_message me r result) s) =
      if_holds (IsWithin n) s.closed h
        (emit-IsWithin n (post (outcome_message me r result) ∷ []) s refl h) in
    rw next (release-IsWithin n r (post_open (outcome_message me r result) s) posted)
broker_step-IsWithin n me unregistered s h =
    omega
      (arith, h, rejections-starts s.pending, count-append is_start s.log (rejections s.pending))

finishes-cons :
    (e : BrokerEvent) (events : List BrokerEvent)
    → finishes (e ∷ events) ≡ finishes (e ∷ []) + finishes events
finishes-cons (delivered message) events = omega arith
finishes-cons (timer_fired a) events = omega arith
finishes-cons (assertion_requested challenge a) events = omega arith
finishes-cons (handler_finished r result) events = omega arith
finishes-cons unregistered events = omega arith

run_broker-IsWithin :
    (n : ℕ) (me : Broker) (events : List BrokerEvent) (s : BrokerState)
    → IsWithin n s
    → IsWithin (n + finishes events) (run_broker me events s)
unfolding run_broker
run_broker-IsWithin n me [] s h = omega (arith, h)
run_broker-IsWithin n me (e ∷ events) s h = omega (
  arith,
  run_broker-IsWithin (n + finishes (e ∷ [])) me events (broker_step me e s)
      (broker_step-IsWithin n me e s h),
  finishes-cons e events,
)

-- At every moment the broker has started at most one handler more than have finished, and no more than
-- have finished while it is free: requests run one at a time.
pub run_broker-serial :
    (me : Broker) (events : List BrokerEvent)
    → count is_start (run_broker me events registered).log
        + free (run_broker me events registered).active_request
      ≤ 1 + finishes events
run_broker-serial me events = run_broker-IsWithin 1 me events registered (omega arith)
