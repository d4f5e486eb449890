-- ===== src/SessionBroker/Messages.antt =====
-- wallet-session-broker.ts: the messages on the channel between tabs, and the wire form of an assertion.
use magna_monorepo.Base.{
  ℕ, ◌%◌, Bool, true, false, ◌||◌, not, List, [], ◌∷◌, Option, none, some, Result, ok, throw_if,
  ◌>>=◌, ◌>>◌, ◌==◌, length, all,
}
use magna_monorepo.Core.Values.{Value}
pub use magna_monorepo.Webauthn.Ceremony.{AssertionResult}
use magna_monorepo.Core.Bytes.{bytes_to_hex, strip_prefix, is_hex, parse_pairs}

pub record WebAuthnAssertionWire : Type 0 where
  pub signature_rs_hex : List ℕ
  pub authenticator_data_hex : List ℕ
  pub client_data_json_hex : List ℕ

pub data WireError : Type 0 where
  not_hex_bytes bad_signature_length bad_challenge_length : WireError

-- `/^(?:[0-9a-fA-F]{2})+$/` on the text without its prefix.
unfoldable pub hex_to_bytes : List ℕ → Result WireError (List ℕ)
unfolding strip_prefix is_hex parse_pairs
hex_to_bytes value = do
  let normalized = strip_prefix value
  throw_if
      (length normalized == 0 || not (length normalized % 2 == 0) || not (all is_hex normalized))
      not_hex_bytes
  ok (parse_pairs normalized)

-- The DER form of the signature is not sent.
unfoldable pub assertion_to_wire : AssertionResult → WebAuthnAssertionWire
unfolding bytes_to_hex
assertion_to_wire assertion = record {
  signature_rs_hex = bytes_to_hex assertion.signature_rs;
  authenticator_data_hex = bytes_to_hex assertion.authenticator_data;
  client_data_json_hex = bytes_to_hex assertion.client_data_json;
}

unfoldable pub assertion_from_wire : WebAuthnAssertionWire → Result WireError AssertionResult
unfolding hex_to_bytes
assertion_from_wire wire = do
  signature ← hex_to_bytes wire.signature_rs_hex
  throw_if (not (length signature == 64)) bad_signature_length
  authenticator_data ← hex_to_bytes wire.authenticator_data_hex
  client_data ← hex_to_bytes wire.client_data_json_hex
  ok (record {
    signature_der = none;
    signature_rs = signature;
    authenticator_data = authenticator_data;
    client_data_json = client_data;
  })

-- Why an operation failed: the text of an `Error` of the wallet or the popup, or one of this code's own.
pub data BrokerError : Type 0 where
  thrown : List ℕ → BrokerError
  already_processing no_popup_assertions : BrokerError
  bad_wire invalid_assertion : WireError → BrokerError
  assertion_timed_out session_closed : BrokerError

-- The first field is the request's id, and the second, where there is one, the broker's.
pub data BrokerMessage : Type 0 where
  probe : List ℕ → BrokerMessage
  available : List ℕ → List ℕ → Option (List ℕ) → BrokerMessage
  execute : List ℕ → List ℕ → Value → BrokerMessage
  started : List ℕ → List ℕ → BrokerMessage
  success : List ℕ → List ℕ → Value → BrokerMessage
  failure : List ℕ → List ℕ → BrokerError → BrokerMessage
  webauthn_request : List ℕ → List ℕ → List ℕ → List ℕ → List ℕ → BrokerMessage
  webauthn_success : List ℕ → List ℕ → List ℕ → WebAuthnAssertionWire → BrokerMessage
  webauthn_failure : List ℕ → List ℕ → List ℕ → BrokerError → BrokerMessage

unfoldable pub request_of : BrokerMessage → List ℕ
request_of (probe r) = r
request_of (available r b c) = r
request_of (execute r b input) = r
request_of (started r b) = r
request_of (success r b outcome) = r
request_of (failure r b e) = r
request_of (webauthn_request r b a c challenge) = r
request_of (webauthn_success r b a wire) = r
request_of (webauthn_failure r b a e) = r

abbrev pub is_filled : List ℕ → Bool
is_filled [] = false
is_filled (_ ∷ _) = true

-- What `isBrokerMessage` asks of a message that has one of the nine types: a request id.
unfoldable pub is_broker_message : BrokerMessage → Bool
unfolding request_of
is_broker_message message = is_filled (request_of message)

-- A string that is there and not empty, as `if (value)` tests it.
abbrev pub is_set : Option (List ℕ) → Bool
is_set none = false
is_set (some s) = is_filled s
