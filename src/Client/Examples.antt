-- ===== src/Client/Examples.antt =====
-- The client's theorems at a login with one requirement.
use magna_monorepo.Base.{
  ◌≡◌, refl, true, List, [], ◌∷◌, some, Result, ok, err, ◌≤◌, arith, inl, if◌then◌else◌,
}
use magna_monorepo.Base.Texts.{codes}
use magna_monorepo.Core.Values.{string, object, Properties, end, property, null}
use magna_monorepo.Core.Policy.{Policy}
use magna_monorepo.Client.{
  SessionVerificationReceipt, SessionAssertion, ExpectedRequestContext, SessionChainVerifierInput,
  ClientError, not_mined, MagnaLoginResult, ChainConfig, validate_login_response, check_receipts,
}
use magna_monorepo.Base.Texts.{text_eq}
use magna_monorepo.Client.Responses.{
  IsLogin, validate_login_response_sound, validate_login_response_complete,
}
use magna_monorepo.Client.Popup.{PopupEvent, message, PopupRequest, run_popup, opened, timed_out}
use magna_monorepo.Client.Popup.Runs.{posts, settlements, run_popup-once}
use magna_monorepo.Client.Popup.Trust.{Validates, HasResponse, run_popup-trusted}

-- A verifier that knows one transaction.
abbrev knows : SessionChainVerifierInput → Result ClientError (Unit {0})
knows input = if text_eq input.tx_hash (codes "0x0a") then ok tt else err not_mined

abbrev age_policy : Policy
age_policy = record { credential_type = 1; constraints = [] }

abbrev one_receipt : SessionVerificationReceipt
one_receipt = record { id = codes "default"; kind = codes "policy"; receipt = some (codes "0x0a") }

abbrev one_assertion : SessionAssertion
one_assertion = record {
  v = 2;
  verified = true;
  request_id = codes "r";
  session_challenge = codes "c";
  policy_hash = codes "h";
  client_id = codes "app";
  origin = codes "https://app";
  authorization_contract = codes "0x01";
  issued_at = 1000;
  expires_at = 1300;
  receipt = codes "0x0a";
  receipts = some (one_receipt ∷ []);
}

abbrev one_context : ExpectedRequestContext
one_context = record {
  client_id = codes "app";
  origin = codes "https://app";
  request_id = codes "r";
  session_challenge = codes "c";
  policy_hash = codes "h";
  consumer_gateway_address = codes "0x02";
  requirements = record { id = codes "default"; kind = codes "policy"; policy = age_policy } ∷ [];
}

abbrev one_config : ChainConfig
one_config = record { aztec_node_url = codes "node"; session_authorization_address = codes "0x01" }

abbrev one_result : MagnaLoginResult
one_result = record {
  verified = true;
  assertion = one_assertion;
  receipt = codes "0x0a";
  receipts = one_receipt ∷ [];
}

one_login : validate_login_response knows one_assertion one_context one_config 1100 ≡ ok one_result
unfolding validate_login_response check_receipts
one_login = refl

validate_login_response_sound_example :
    IsLogin knows one_assertion one_context one_config 1100 (one_receipt ∷ [])
    × (one_assertion ≡ one_assertion)
    × (codes "0x0a" ≡ codes "0x0a")
    × (true ≡ true)
validate_login_response_sound_example =
    validate_login_response_sound knows one_assertion one_context one_config 1100 one_result
      one_login

validate_login_response_complete_example :
    validate_login_response knows one_assertion one_context one_config 1100 ≡ ok one_result
validate_login_response_complete_example =
    validate_login_response_complete knows one_assertion one_context one_config 1100
      (one_receipt ∷ [])
      (record {
        version = refl;
        verified = refl;
        request_id = refl;
        session_challenge = refl;
        policy_hash = refl;
        client_id = refl;
        origin = refl;
        contract = refl;
        not_expired = omega arith;
        begun = omega arith;
        lifetime = refl;
        has_receipts = refl;
        count = refl;
        authorized = ((codes "0x0a", refl, refl), tt);
        primary = refl;
      })

abbrev popup_request : PopupRequest
popup_request = record { wallet_origin = codes "https://wallet"; request_id = codes "r" }

abbrev answer : Properties
answer =
    property (codes "kind") (string (codes "magna:login-response"))
      (property (codes "requestId") (string (codes "r")) (property (codes "assertion") null end))

-- A stranger's message, the wallet's twice, and the timer.
abbrev popup_events : List PopupEvent
popup_events =
    message (codes "https://other") (object answer)
    ∷ message (codes "https://wallet") (object answer)
    ∷ message (codes "https://wallet") (object answer)
    ∷ timed_out
    ∷ []

run_popup-once_example :
    (settlements (run_popup popup_request popup_events opened).log ≤ 1)
    × (posts (run_popup popup_request popup_events opened).log ≤ 1)
run_popup-once_example = run_popup-once popup_request popup_events

answer-Validates : Validates null (run_popup popup_request popup_events opened).log
unfolding run_popup
answer-Validates = inl refl

run_popup-trusted_example : HasResponse popup_request null popup_events
run_popup-trusted_example = run_popup-trusted popup_request popup_events null answer-Validates
