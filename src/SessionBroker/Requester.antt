-- ===== src/SessionBroker/Requester.antt =====
-- wallet-session-broker.ts, `tryWalletLoginThroughExistingSession`: the side of the login's tab.
pub mod Settled
pub mod Deadlines
pub mod Chosen
use magna_monorepo.Base.{
  ℕ, Bool, true, false, ◌&&◌, ◌||◌, not, List, [], ◌∷◌, ◌++◌, Option, none, some, Result, ok, err,
  throw_if, ◌>>=◌, ◌>>◌, ◌==◌, length, if◌then◌else◌,
}
use magna_monorepo.Base.Texts.{text_eq}
use magna_monorepo.Core.Values.{Value}
use magna_monorepo.Core.ConnectorProtocol.{has}
use magna_monorepo.SessionBroker.Messages.{
  AssertionResult, assertion_to_wire, WireError, bad_challenge_length, hex_to_bytes, BrokerError,
  no_popup_assertions, bad_wire, BrokerMessage, probe, available, execute, started, success,
  failure, webauthn_request, webauthn_success, webauthn_failure, request_of, is_broker_message,
  is_filled, is_set,
}

-- What the code does, in order. `perform` has the broker, the assertion's id, the credential and the
-- challenge.
pub data RequesterEffect : Type 0 where
  post : BrokerMessage → RequesterEffect
  broker_selected : RequesterEffect
  perform : List ℕ → List ℕ → List ℕ → List ℕ → RequesterEffect
  resolve_unhandled : List (List ℕ) → RequesterEffect
  resolve_handled : Value → RequesterEffect
  reject_timeout : RequesterEffect
  reject_error : BrokerError → RequesterEffect

-- `can_perform` tells whether there is an option `performWebAuthnAssertion`.
pub record Requester : Type 0 where
  pub request_id : List ℕ
  pub input : Value
  pub target_credential_id : Option (List ℕ)
  pub can_perform : Bool

-- `discovering` and `completing` tell which timer is set.
pub record RequesterState : Type 0 where
  pub selected : Option (List ℕ)
  pub conflicting : List (List ℕ)
  pub discovering : Bool
  pub completing : Bool
  pub finished : Bool
  pub log : List RequesterEffect

-- A message, the two timers, and the end of the call of `performWebAuthnAssertion` for a broker and an
-- assertion.
pub data RequesterEvent : Type 0 where
  received : BrokerMessage → RequesterEvent
  discovery_elapsed completion_elapsed : RequesterEvent
  performed : List ℕ → List ℕ → Result BrokerError AssertionResult → RequesterEvent

unfoldable pub probing : Requester → RequesterState
probing me = record {
  selected = none;
  conflicting = [];
  discovering = true;
  completing = false;
  finished = false;
  log = post (probe me.request_id) ∷ [];
}

unfoldable pub add_effects : List RequesterEffect → RequesterState → RequesterState
add_effects effects s = record {
  selected = s.selected;
  conflicting = s.conflicting;
  discovering = s.discovering;
  completing = s.completing;
  finished = s.finished;
  log = s.log ++ effects;
}

-- `finish`: both timers are cleared and the channel is closed.
unfoldable pub finish : RequesterEffect → RequesterState → RequesterState
finish settlement s = record {
  selected = s.selected;
  conflicting = s.conflicting;
  discovering = false;
  completing = false;
  finished = true;
  log = s.log ++ (settlement ∷ []);
}

-- `conflictingCredentialIds.add(credentialId)`, if there is one.
abbrev pub note_conflict : Option (List ℕ) → RequesterState → RequesterState
note_conflict none s = s
note_conflict (some credential) s =
    if not (is_filled credential) || has s.conflicting credential then s else record {
      selected = s.selected;
      conflicting = s.conflicting ++ (credential ∷ []);
      discovering = s.discovering;
      completing = s.completing;
      finished = s.finished;
      log = s.log;
    }

unfoldable pub select_broker : Requester → List ℕ → RequesterState → RequesterState
select_broker me broker_id s = record {
  selected = some broker_id;
  conflicting = s.conflicting;
  discovering = false;
  completing = true;
  finished = s.finished;
  log = s.log ++ (broker_selected ∷ post (execute me.request_id broker_id me.input) ∷ []);
}

abbrev pub same_id : Option (List ℕ) → Option (List ℕ) → Bool
same_id none none = true
same_id (some a) (some b) = text_eq a b
same_id none (some b) = false
same_id (some a) none = false

-- The answer of a broker, while none is selected.
unfoldable pub on_available : Requester → List ℕ → Option (List ℕ) → RequesterState → RequesterState
unfolding select_broker
on_available me broker_id credential s =
    if is_set me.target_credential_id && not (same_id credential me.target_credential_id)
    then note_conflict credential s
    else select_broker me broker_id s

-- The challenge as 32 bytes.
unfoldable pub decode_challenge : List ℕ → Result WireError (List ℕ)
unfolding hex_to_bytes
decode_challenge challenge_hex = do
  challenge ← hex_to_bytes challenge_hex
  throw_if (not (length challenge == 32)) bad_challenge_length
  ok challenge

abbrev pub perform_or_fail :
    Requester → List ℕ → List ℕ → List ℕ → Result WireError (List ℕ) → RequesterEffect
perform_or_fail me broker_id assertion_id credential (ok challenge) =
    perform broker_id assertion_id credential challenge
perform_or_fail me broker_id assertion_id credential (err e) =
    post (webauthn_failure me.request_id broker_id assertion_id (bad_wire e))

unfoldable pub on_webauthn_request : Requester → List ℕ → List ℕ → List ℕ → List ℕ → RequesterEffect
unfolding decode_challenge
on_webauthn_request me broker_id assertion_id credential challenge_hex =
    if me.can_perform
    then perform_or_fail me broker_id assertion_id credential (decode_challenge challenge_hex)
    else post (webauthn_failure me.request_id broker_id assertion_id no_popup_assertions)

abbrev pub is_selected : Option (List ℕ) → List ℕ → Bool
is_selected none broker_id = false
is_selected (some b) broker_id = is_filled b && text_eq broker_id b

-- A message of this request, past the guards of `channel.onmessage`.
unfoldable pub on_broker_reply : Requester → BrokerMessage → RequesterState → RequesterState
unfolding on_available on_webauthn_request add_effects finish
on_broker_reply me (available r b c) s =
    if not (is_set s.selected) then on_available me b c s else s
on_broker_reply me (webauthn_request r b a c challenge) s =
    if is_selected s.selected b
    then add_effects (on_webauthn_request me b a c challenge ∷ []) s
    else s
on_broker_reply me (success r b outcome) s =
    if is_selected s.selected b then finish (resolve_handled outcome) s else s
on_broker_reply me (failure r b e) s =
    if is_selected s.selected b then finish (reject_error e) s else s
on_broker_reply me (probe r) s = s
on_broker_reply me (execute r b input) s = s
on_broker_reply me (started r b) s = s
on_broker_reply me (webauthn_success r b a wire) s = s
on_broker_reply me (webauthn_failure r b a e) s = s

-- No message arrives on the channel once it is closed.
unfoldable pub on_received : Requester → BrokerMessage → RequesterState → RequesterState
unfolding is_broker_message request_of on_broker_reply
on_received me message s =
    if s.finished
      || not (is_broker_message message)
      || not (text_eq (request_of message) me.request_id)
    then s
    else on_broker_reply me message s

abbrev pub assertion_reply :
    Requester → List ℕ → List ℕ → Result BrokerError AssertionResult → BrokerMessage
assertion_reply me broker_id assertion_id (ok assertion) =
    webauthn_success me.request_id broker_id assertion_id (assertion_to_wire assertion)
assertion_reply me broker_id assertion_id (err e) =
    webauthn_failure me.request_id broker_id assertion_id e

-- On a closed channel nothing is posted.
unfoldable pub on_performed :
    Requester
    → List ℕ
    → List ℕ
    → Result BrokerError AssertionResult
    → RequesterState
    → RequesterState
unfolding add_effects
on_performed me broker_id assertion_id result s =
    if s.finished
    then s
    else add_effects (post (assertion_reply me broker_id assertion_id result) ∷ []) s

unfoldable pub requester_step : Requester → RequesterEvent → RequesterState → RequesterState
unfolding on_received on_performed finish
requester_step me (received message) s = on_received me message s
requester_step me discovery_elapsed s =
    if s.discovering then finish (resolve_unhandled s.conflicting) s else s
requester_step me completion_elapsed s = if s.completing then finish reject_timeout s else s
requester_step me (performed b a result) s = on_performed me b a result s

unfoldable pub run_requester : Requester → List RequesterEvent → RequesterState → RequesterState
unfolding requester_step
run_requester me [] s = s
run_requester me (e ∷ events) s = run_requester me events (requester_step me e s)
