-- ===== src/SessionBroker/Examples.antt =====
-- The theorems on the session broker at one login.
use magna_monorepo.Base.{
  ℕ, ◌+◌, ◌≤◌, ◌≡◌, refl, List, [], ◌∷◌, ◌++◌, none, some, ok, true, replicate, arith, count, inl,
  All-replicate,
}
use magna_monorepo.Base.Numbers.{IsByte}
use magna_monorepo.Base.Texts.{codes}
use magna_monorepo.Core.Values.{null}
use magna_monorepo.SessionBroker.Messages.{
  AssertionResult, assertion_to_wire, available, execute, success, webauthn_success,
}
use magna_monorepo.SessionBroker.Broker.{
  Broker, BrokerEvent, delivered, timer_fired, assertion_requested, unregistered, registered,
  on_delivered, settle, run_broker,
}
use magna_monorepo.SessionBroker.Broker.Once.{IsCalledOnce, run_broker-settles}
use magna_monorepo.SessionBroker.Broker.Serial.{is_start, free, finishes, run_broker-serial}
use magna_monorepo.SessionBroker.Broker.Trust.{SomeBrings, run_broker-trusted}
use magna_monorepo.SessionBroker.Requester.{
  Requester, RequesterEvent, received, discovery_elapsed, completion_elapsed, probing,
  run_requester, assertion_reply,
}
use magna_monorepo.SessionBroker.Requester.Settled.{is_settlement}
use magna_monorepo.SessionBroker.Requester.Deadlines.{run_requester-settled}
use magna_monorepo.SessionBroker.Requester.Chosen.{
  SomeEvent, Offers, Reports, run_requester-trusted,
}
use magna_monorepo.SessionBroker.Wire.{IsAssertion, on_delivered-assertion_reply}

abbrev the_broker : Broker
the_broker = record { broker_id = codes "b"; credential_id = some (codes "c") }

abbrev the_login : Requester
the_login = record {
  request_id = codes "r";
  input = null;
  target_credential_id = some (codes "c");
  can_perform = true;
}

abbrev an_assertion : AssertionResult
an_assertion = record {
  signature_der = none;
  signature_rs = replicate 64 7;
  authenticator_data = 1 ∷ [];
  client_data_json = 2 ∷ [];
}

abbrev a_signed_one : AssertionResult
a_signed_one = record an_assertion { signature_der = some (48 ∷ []) }

a_signed_one_good : IsAssertion a_signed_one
a_signed_one_good = record {
  signature_bytes = All-replicate IsByte 64 7 (omega arith);
  authenticator_bytes = (omega arith, tt);
  client_bytes = (omega arith, tt);
  signature_length = refl;
  authenticator_filled = omega arith;
  client_filled = omega arith;
}

abbrev asked : List BrokerEvent
asked =
    delivered (execute (codes "r") (codes "b") null)
    ∷ assertion_requested (replicate 32 9) (codes "a")
    ∷ []

abbrev answered : List BrokerEvent
answered =
    asked
    ++ (delivered
          (webauthn_success (codes "r") (codes "b") (codes "a") (assertion_to_wire an_assertion))
        ∷ [])

-- A promise that is asked for after the broker was closed, and its timer.
abbrev closed_early : List BrokerEvent
closed_early =
    asked
    ++ (unregistered
        ∷ assertion_requested (replicate 32 9) (codes "z")
        ∷ timer_fired (codes "z")
        ∷ [])

run_broker-settles_example :
    IsCalledOnce (codes "z") (run_broker the_broker closed_early registered)
run_broker-settles_example = run_broker-settles (codes "z") the_broker closed_early

run_broker-serial_example :
    count is_start (run_broker the_broker answered registered).log
      + free (run_broker the_broker answered registered).active_request
    ≤ 1 + finishes answered
run_broker-serial_example = run_broker-serial the_broker answered

run_broker-trusted_example : SomeBrings the_broker (codes "a") an_assertion answered
unfolding run_broker assertion_to_wire
run_broker-trusted_example =
    run_broker-trusted (codes "a") an_assertion the_broker answered (inl (refl, refl))

abbrev replies : List RequesterEvent
replies =
    received (available (codes "r") (codes "x") (some (codes "d")))
    ∷ received (available (codes "r") (codes "b") (some (codes "c")))
    ∷ received (success (codes "r") (codes "b") null)
    ∷ []

run_requester-settled_example :
    count is_settlement
      (run_requester the_login
        ([] ++ (discovery_elapsed ∷ (replies ++ (completion_elapsed ∷ []))))
        (probing the_login)).log
    ≡ 1
run_requester-settled_example = run_requester-settled the_login [] replies []

run_requester-trusted_example :
    (b : List ℕ) × SomeEvent (Offers the_login b) replies
    × SomeEvent (Reports the_login b null) replies
unfolding run_requester probing
run_requester-trusted_example = run_requester-trusted the_login replies null (inl refl)

on_delivered-assertion_reply_example :
    on_delivered the_broker
      (assertion_reply the_login (codes "b") (codes "a") (ok a_signed_one))
      (run_broker the_broker asked registered)
    ≡ settle (codes "a") (ok an_assertion) (run_broker the_broker asked registered)
unfolding run_broker assertion_to_wire
on_delivered-assertion_reply_example =
    on_delivered-assertion_reply the_login the_broker (codes "a") a_signed_one
      (run_broker the_broker asked registered) a_signed_one_good refl refl refl
