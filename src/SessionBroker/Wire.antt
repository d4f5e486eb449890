-- ===== src/SessionBroker/Wire.antt =====
-- An assertion that crosses the channel, from the tab that made it to the promise that waits for it.
use magna_monorepo.Base.{
  ℕ, ◌%◌, ◌≤◌, ◌≡◌, refl, ap, true, false, List, none, some, ok, ◌==◌, length, All, arith,
}
use magna_monorepo.Base.Numbers.{IsByte}
use magna_monorepo.Base.Texts.{text_eq_refl}
use magna_monorepo.Base.Maps.{lookup}
use magna_monorepo.Core.Bytes.{bytes_to_hex}
use magna_monorepo.Core.Bytes.RoundTrip.{
  bytes_to_hex_shape, parse_pairs-bytes_to_hex, strip_prefix-bytes_to_hex,
}
use magna_monorepo.SessionBroker.Messages.{
  AssertionResult, hex_to_bytes, assertion_to_wire, assertion_from_wire, is_filled,
  is_broker_message, request_of,
}
use magna_monorepo.SessionBroker.Broker.{
  Broker, BrokerState, on_delivered, on_broker_message, on_assertion, settle,
}
use magna_monorepo.SessionBroker.Requester.{Requester, assertion_reply}

-- What WebAuthn returns: bytes, of which the signature has 64 and the others some.
pub record IsAssertion (w : AssertionResult) : Type 0 where
  pub signature_bytes : All IsByte w.signature_rs
  pub authenticator_bytes : All IsByte w.authenticator_data
  pub client_bytes : All IsByte w.client_data_json
  pub signature_length : length w.signature_rs ≡ 64
  pub authenticator_filled : 1 ≤ length w.authenticator_data
  pub client_filled : 1 ≤ length w.client_data_json

hex_to_bytes-bytes_to_hex :
    (bs : List ℕ) → All IsByte bs → 1 ≤ length bs → hex_to_bytes (bytes_to_hex bs) ≡ ok bs
unfolding hex_to_bytes
hex_to_bytes-bytes_to_hex bs h filled =
    let (len, digits) = bytes_to_hex_shape bs h in
    let even : (length (bytes_to_hex bs) % 2 == 0) ≡ true = ground (arith, len) in
    let some_digits : (length (bytes_to_hex bs) == 0) ≡ false = ground (arith, len) in
    rw (strip_prefix-bytes_to_hex bs h, even, some_digits, digits)
      (ap ok (parse_pairs-bytes_to_hex bs h))

-- The assertion without the DER form of its signature.
abbrev pub without_der : AssertionResult → AssertionResult
without_der w = record {
  signature_der = none;
  signature_rs = w.signature_rs;
  authenticator_data = w.authenticator_data;
  client_data_json = w.client_data_json;
}

pub assertion_from_wire-assertion_to_wire :
    (w : AssertionResult)
    → IsAssertion w
    → assertion_from_wire (assertion_to_wire w) ≡ ok (without_der w)
unfolding assertion_from_wire assertion_to_wire
assertion_from_wire-assertion_to_wire w h =
    let long : 1 ≤ length w.signature_rs = omega (arith, h.signature_length) in
    rw
      (
        hex_to_bytes-bytes_to_hex w.signature_rs h.signature_bytes long,
        h.signature_length,
        hex_to_bytes-bytes_to_hex w.authenticator_data h.authenticator_bytes h.authenticator_filled,
        hex_to_bytes-bytes_to_hex w.client_data_json h.client_bytes h.client_filled,
      )
      refl

-- An assertion of 64 signature bytes and some bytes of data, that the login's tab posts under its
-- request id, which is not empty, for a promise which the open broker has pending for this request,
-- settles that promise with its signature and data, and without the DER form of the signature, which is
-- not sent.
pub on_delivered-assertion_reply :
    (me : Requester) (broker : Broker) (a : List ℕ) (w : AssertionResult) (s : BrokerState)
    → IsAssertion w
    → is_filled me.request_id ≡ true
    → s.closed ≡ false
    → lookup a s.pending ≡ some me.request_id
    → on_delivered broker (assertion_reply me broker.broker_id a (ok w)) s
      ≡ settle a (ok (without_der w)) s
unfolding on_delivered is_broker_message request_of on_broker_message on_assertion
on_delivered-assertion_reply me broker a w s h filled live found =
    rw
      (
        filled,
        live,
        text_eq_refl broker.broker_id,
        found,
        text_eq_refl me.request_id,
        assertion_from_wire-assertion_to_wire w h,
      )
      refl
