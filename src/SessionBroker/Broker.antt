-- ===== src/SessionBroker/Broker.antt =====
-- wallet-session-broker.ts, `registerWalletSessionLoginBroker`: the side of the open wallet session.
pub mod Once
pub mod Serial
pub mod Trust
use magna_monorepo.Base.{
  ℕ, Bool, true, false, ◌||◌, not, List, [], ◌∷◌, ◌++◌, Option, none, some, Result, ok, err, ◌==◌,
  length, if◌then◌else◌,
}
use magna_monorepo.Base.Texts.{text_eq}
use magna_monorepo.Base.Maps.{lookup, insert, remove}
use magna_monorepo.Core.Values.{Value}
use magna_monorepo.Core.Bytes.{bytes_to_hex}
use magna_monorepo.SessionBroker.Messages.{
  AssertionResult, assertion_from_wire, WireError, BrokerError, already_processing,
  invalid_assertion, assertion_timed_out, session_closed, BrokerMessage, probe, available, execute,
  started, success, failure, webauthn_request, webauthn_success, webauthn_failure,
  is_broker_message,
}

pub data Refusal : Type 0 where
  no_active_request no_credential_id bad_challenge : Refusal

-- What the code does, in order. A promise of an assertion is named by the assertion's id: `resolve` and
-- `reject` are calls of its two functions, of which a promise heeds the first, and `post_threw` is a
-- `postMessage` that threw while the promise was made, which rejects it too.
pub data BrokerEffect : Type 0 where
  post : BrokerMessage → BrokerEffect
  start_handler : List ℕ → Value → BrokerEffect
  new_promise : List ℕ → BrokerEffect
  post_threw : List ℕ → BrokerEffect
  resolve : List ℕ → AssertionResult → BrokerEffect
  reject : List ℕ → BrokerError → BrokerEffect
  refuse : Refusal → BrokerEffect

pub record Broker : Type 0 where
  pub broker_id : List ℕ
  pub credential_id : Option (List ℕ)

-- `pending` has the request's id under each assertion's id.
pub record BrokerState : Type 0 where
  pub active_request : Option (List ℕ)
  pub closed : Bool
  pub pending : List (List ℕ × List ℕ)
  pub log : List BrokerEffect

-- A message, the timer of a pending assertion, a call of `requestWebAuthnAssertion` with the id that it
-- draws, the end of the handler of a request, and a call of the function that is returned.
pub data BrokerEvent : Type 0 where
  delivered : BrokerMessage → BrokerEvent
  timer_fired : List ℕ → BrokerEvent
  assertion_requested : List ℕ → List ℕ → BrokerEvent
  handler_finished : List ℕ → Result BrokerError Value → BrokerEvent
  unregistered : BrokerEvent

abbrev pub registered : BrokerState
registered = record { active_request = none; closed = false; pending = []; log = [] }

unfoldable pub emit : List BrokerEffect → BrokerState → BrokerState
emit effects s = record {
  active_request = s.active_request;
  closed = s.closed;
  pending = s.pending;
  log = s.log ++ effects;
}

-- `channel.postMessage`: on a closed channel nothing is posted.
unfoldable pub post_open : BrokerMessage → BrokerState → BrokerState
unfolding emit
post_open message s = if s.closed then s else emit (post message ∷ []) s

abbrev pub settlement : List ℕ → Result BrokerError AssertionResult → BrokerEffect
settlement assertion_id (ok assertion) = resolve assertion_id assertion
settlement assertion_id (err e) = reject assertion_id e

-- The entry leaves the map, its timer is cleared, and its promise is settled.
unfoldable pub settle : List ℕ → Result BrokerError AssertionResult → BrokerState → BrokerState
unfolding remove
settle assertion_id result s = record {
  active_request = s.active_request;
  closed = s.closed;
  pending = remove assertion_id s.pending;
  log = s.log ++ (settlement assertion_id result ∷ []);
}

-- `!pending || pending.requestId !== message.requestId` returns.
abbrev pub settle_if :
    Option (List ℕ)
    → List ℕ
    → List ℕ
    → Result BrokerError AssertionResult
    → BrokerState
    → BrokerState
settle_if none request_id assertion_id result s = s
settle_if (some owner) request_id assertion_id result s =
    if text_eq owner request_id then settle assertion_id result s else s

unfoldable pub on_assertion :
    List ℕ → List ℕ → Result BrokerError AssertionResult → BrokerState → BrokerState
unfolding lookup settle
on_assertion request_id assertion_id result s =
    settle_if (lookup assertion_id s.pending) request_id assertion_id result s

abbrev pub wire_result : Result WireError AssertionResult → Result BrokerError AssertionResult
wire_result (ok assertion) = ok assertion
wire_result (err e) = err (invalid_assertion e)

-- An `execute` for this broker: one request at a time.
abbrev pub start_or_decline : Broker → Option (List ℕ) → List ℕ → Value → BrokerState → BrokerState
start_or_decline me (some busy) request_id input s =
    emit (post (failure request_id me.broker_id already_processing) ∷ []) s
start_or_decline me none request_id input s = record {
  active_request = some request_id;
  closed = s.closed;
  pending = s.pending;
  log = s.log ++ (post (started request_id me.broker_id) ∷ start_handler request_id input ∷ []);
}

-- `channel.onmessage`, past its first line.
unfoldable pub on_broker_message : Broker → BrokerMessage → BrokerState → BrokerState
unfolding on_assertion assertion_from_wire emit
on_broker_message me (webauthn_success r b a wire) s =
    if text_eq b me.broker_id
    then on_assertion r a (wire_result (assertion_from_wire wire)) s
    else s
on_broker_message me (webauthn_failure r b a e) s =
    if text_eq b me.broker_id then on_assertion r a (err e) s else s
on_broker_message me (probe r) s = emit (post (available r me.broker_id me.credential_id) ∷ []) s
on_broker_message me (execute r b input) s =
    if text_eq b me.broker_id then start_or_decline me s.active_request r input s else s
on_broker_message me (available r b c) s = s
on_broker_message me (started r b) s = s
on_broker_message me (success r b outcome) s = s
on_broker_message me (failure r b e) s = s
on_broker_message me (webauthn_request r b a c challenge) s = s

unfoldable pub on_delivered : Broker → BrokerMessage → BrokerState → BrokerState
unfolding is_broker_message on_broker_message
on_delivered me message s =
    if not (is_broker_message message) || s.closed then s else on_broker_message me message s

-- An id is drawn once, so that its timer is running just as long as its entry is in the map.
abbrev pub expire_if : Option (List ℕ) → List ℕ → BrokerState → BrokerState
expire_if none assertion_id s = s
expire_if (some owner) assertion_id s = settle assertion_id (err assertion_timed_out) s

-- The timer of an assertion.
unfoldable pub on_timer : List ℕ → BrokerState → BrokerState
unfolding lookup settle
on_timer assertion_id s = expire_if (lookup assertion_id s.pending) assertion_id s

-- On a closed channel `postMessage` throws.
abbrev pub post_or_throw : Bool → List ℕ → BrokerMessage → BrokerEffect
post_or_throw true assertion_id message = post_threw assertion_id
post_or_throw false assertion_id message = post message

-- The promise is new, it is pending, and then the popup is asked. A promise whose `postMessage` threw
-- stays in the map, so that its timer and a further unregistering call its functions.
unfoldable pub ask_popup : Broker → List ℕ → List ℕ → List ℕ → List ℕ → BrokerState → BrokerState
unfolding insert bytes_to_hex
ask_popup me request_id credential_id challenge assertion_id s = record {
  active_request = s.active_request;
  closed = s.closed;
  pending = insert assertion_id request_id s.pending;
  log =
      s.log
      ++ (new_promise assertion_id
          ∷ post_or_throw s.closed assertion_id (
              webauthn_request request_id me.broker_id assertion_id credential_id
                (bytes_to_hex challenge))
          ∷ []);
}

abbrev pub with_credential :
    Option (List ℕ) → (List ℕ → BrokerState → BrokerState) → BrokerState → BrokerState
with_credential none next s = emit (refuse no_credential_id ∷ []) s
with_credential (some []) next s = emit (refuse no_credential_id ∷ []) s
with_credential (some (c ∷ cs)) next s = next (c ∷ cs) s

abbrev pub with_request :
    Option (List ℕ) → (List ℕ → BrokerState → BrokerState) → BrokerState → BrokerState
with_request none next s = emit (refuse no_active_request ∷ []) s
with_request (some r) next s = next r s

-- `requestWebAuthnAssertion`
unfoldable pub request_webauthn_assertion : Broker → List ℕ → List ℕ → BrokerState → BrokerState
unfolding emit ask_popup
request_webauthn_assertion me challenge assertion_id s =
    with_request s.active_request
      (λ request_id. with_credential me.credential_id (λ credential_id t.
        if length challenge == 32
        then ask_popup me request_id credential_id challenge assertion_id t
        else emit (refuse bad_challenge ∷ []) t))
      s

abbrev pub is_active : Option (List ℕ) → List ℕ → Bool
is_active none request_id = false
is_active (some r) request_id = text_eq r request_id

-- `finally`
unfoldable pub release : List ℕ → BrokerState → BrokerState
release request_id s =
    if is_active s.active_request request_id
    then record { active_request = none; closed = s.closed; pending = s.pending; log = s.log }
    else s

abbrev pub outcome_message : Broker → List ℕ → Result BrokerError Value → BrokerMessage
outcome_message me request_id (ok outcome) = success request_id me.broker_id outcome
outcome_message me request_id (err e) = failure request_id me.broker_id e

unfoldable pub on_finished : Broker → List ℕ → Result BrokerError Value → BrokerState → BrokerState
unfolding post_open release
on_finished me request_id result s =
    release request_id (post_open (outcome_message me request_id result) s)

abbrev pub rejections : List (List ℕ × List ℕ) → List BrokerEffect
rejections [] = []
rejections ((a, r) ∷ pending) = reject a session_closed ∷ rejections pending

unfoldable pub unregister : BrokerState → BrokerState
unregister s = record {
  active_request = s.active_request;
  closed = true;
  pending = [];
  log = s.log ++ rejections s.pending;
}

unfoldable pub broker_step : Broker → BrokerEvent → BrokerState → BrokerState
unfolding on_delivered on_timer request_webauthn_assertion on_finished unregister
broker_step me (delivered message) s = on_delivered me message s
broker_step me (timer_fired a) s = on_timer a s
broker_step me (assertion_requested challenge a) s = request_webauthn_assertion me challenge a s
broker_step me (handler_finished r result) s = on_finished me r result s
broker_step me unregistered s = unregister s

unfoldable pub run_broker : Broker → List BrokerEvent → BrokerState → BrokerState
unfolding broker_step
run_broker me [] s = s
run_broker me (e ∷ events) s = run_broker me events (broker_step me e s)
