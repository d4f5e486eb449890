-- ===== src/Core/ConnectorProtocol/LoginRequests.antt =====
-- Which messages `assertLoginRequest` lets through.
use Prim.Native.String.{String}
use magna_monorepo.Base.{
  ℕ, ◌*◌, ◌≡◌, ◌≢◌, ◌⊎◌, refl, ap, true, false, ◌&&◌, List, [], ◌∷◌, length, all, All, all_iff,
  arith, ◌↔◌, inl, inr, Bool-cases, ok, throw_if, ◌>>◌, not, ==_iff,
}
use magna_monorepo.Base.Numbers.{pos}
use magna_monorepo.Base.Texts.{codes}
use magna_monorepo.Core.Values.{integer, Value, number, string, object, Properties, get}
use magna_monorepo.Core.SessionAssertion.{is_lower_hex}
use magna_monorepo.Core.ConnectorProtocol.{
  is_text, assert_hex, is_string, is_filled_string, is_one, assert_login_request, bad_response_mode,
  redirect_uri_required,
}
use magna_monorepo.Core.ConnectorProtocol.Policies.{IsWirePolicy, assert_wire_policy_iff}
use magna_monorepo.Core.ConnectorProtocol.Accepted.{
  IsBetween, AreRequirements, is_text_iff, assert_wire_login_requirements_iff,
}

abbrev pub IsLowerHex : ℕ → Type 0
IsLowerHex c = IsBetween b'0' b'9' c ⊎ IsBetween b'a' b'f' c

is_lower_hex_iff : (c : ℕ) → (is_lower_hex c ≡ true) ↔ IsLowerHex c
unfolding is_lower_hex
is_lower_hex_iff c = (λ h. ground arith, λ h. ground arith)

-- The lower-case hexadecimal text of so many bytes.
abbrev pub IsHexOf : ℕ → List ℕ → Type 0
IsHexOf n s = All IsLowerHex s × (length s ≡ n * 2)

abbrev pub IsHexValue : ℕ → Value → Type 0
IsHexValue n v = (s : List ℕ) × (v ≡ string s) × IsHexOf n s

abbrev pub IsPrefixedHexValue : ℕ → Value → Type 0
IsPrefixedHexValue n v = (s : List ℕ) × (v ≡ string (b'0' ∷ b'x' ∷ s)) × IsHexOf n s

IsLowerHex-iff : (s : List ℕ) → (all is_lower_hex s ≡ true) ↔ All IsLowerHex s
IsLowerHex-iff = all_iff is_lower_hex IsLowerHex is_lower_hex_iff

assert_hex_sound :
    (v : Value) (n : ℕ) (label : String) → assert_hex v n label false ≡ ok tt → IsHexValue n v
unfolding assert_hex
assert_hex_sound (string s) n label h =
    (s, refl, ((IsLowerHex-iff s).0 (ground arith), ground arith))
assert_hex_sound _ n label h = cc

assert_hex_complete :
    (v : Value) (n : ℕ) (label : String) → IsHexValue n v → assert_hex v n label false ≡ ok tt
unfolding assert_hex
assert_hex_complete v n label (s, e, (digits, len)) =
    rw e (ground (arith, (IsLowerHex-iff s).1 digits))

assert_prefixed_sound :
    (v : Value) (n : ℕ) (label : String)
    → assert_hex v n label true ≡ ok tt
    → IsPrefixedHexValue n v
unfolding assert_hex
assert_prefixed_sound (string (a ∷ b ∷ s)) n label h =
    let first : a ≡ b'0' = ground arith in
    let second : b ≡ b'x' = ground arith in
    (s, rw (first, second), ((IsLowerHex-iff s).0 (ground arith), ground arith))
assert_prefixed_sound (string (a ∷ [])) n label h = cc
assert_prefixed_sound (string []) n label h = cc
assert_prefixed_sound _ n label h = cc

assert_prefixed_complete :
    (v : Value) (n : ℕ) (label : String)
    → IsPrefixedHexValue n v
    → assert_hex v n label true ≡ ok tt
unfolding assert_hex
assert_prefixed_complete v n label (s, e, (digits, len)) =
    rw e (ground (arith, (IsLowerHex-iff s).1 digits))

abbrev pub IsFilledString : Value → Type 0
IsFilledString v = (s : List ℕ) × (v ≡ string s) × (s ≢ [])

is_filled_sound : (v : Value) → is_filled_string v ≡ true → IsFilledString v
is_filled_sound (string []) h = cc
is_filled_sound (string (c ∷ s)) h = (c ∷ s, refl, λ e. cc)
is_filled_sound _ h = cc

is_filled_complete : (v : Value) → IsFilledString v → is_filled_string v ≡ true
is_filled_complete v ([], e, h) = absurd (h refl)
is_filled_complete v (c ∷ s, e, h) = rw e (ground arith)

is_one_sound : (v : Value) → is_one v ≡ true → v ≡ number (integer (pos 1))
is_one_sound (number (integer (pos n))) h =
    ap (λ (k : ℕ). number (integer (pos k))) ((==_iff n 1).0 h)
is_one_sound _ h = cc

is_string_sound : (v : Value) → is_string v ≡ true → (s : List ℕ) × (v ≡ string s)
is_string_sound (string s) h = (s, refl)
is_string_sound _ h = cc

-- `"postMessage"`, or `"redirectCode"` with a `redirectUri`.
abbrev pub IsResponseMode : Properties → Type 0
IsResponseMode r =
    (get (codes "responseMode") r ≡ string (codes "postMessage"))
    ⊎ ((get (codes "responseMode") r ≡ string (codes "redirectCode"))
        × ((s : List ℕ) × (get (codes "redirectUri") r ≡ string s)))

pub record IsLoginRequest (v : Value) : Type 0 where
  pub fields : Properties
  pub is_object : v ≡ object fields
  pub version : get (codes "v") fields ≡ number (integer (pos 1))
  pub kind : get (codes "kind") fields ≡ string (codes "magna:login-request")
  pub client_id : IsFilledString (get (codes "clientId") fields)
  pub origin : IsFilledString (get (codes "origin") fields)
  pub request_id : IsHexValue 16 (get (codes "requestId") fields)
  pub session_challenge : IsHexValue 32 (get (codes "sessionChallenge") fields)
  pub policy_hash : IsPrefixedHexValue 32 (get (codes "policyHash") fields)
  pub policy : IsWirePolicy (get (codes "policy") fields)
  pub requirements : AreRequirements (get (codes "requirements") fields)
  pub response_mode : IsResponseMode fields

IsResponseMode-sound :
    (r : Properties)
    → not (is_text "postMessage" (get (codes "responseMode") r))
        && not (is_text "redirectCode" (get (codes "responseMode") r))
      ≡ false
    → is_text "redirectCode" (get (codes "responseMode") r)
        && not (is_string (get (codes "redirectUri") r))
      ≡ false
    → IsResponseMode r
IsResponseMode-sound r h k =
    elim (Bool-cases (is_text "postMessage" (get (codes "responseMode") r))) [
      | inl post ↦ inl ((is_text_iff "postMessage" _).0 post)
      | inr other ↦
          let redirect : is_text "redirectCode" (get (codes "responseMode") r) ≡ true =
            ground arith in
          inr ((is_text_iff "redirectCode" _).0 redirect, is_string_sound _ (ground arith))
    ]

assert_login_request_sound : (v : Value) → assert_login_request v ≡ ok tt → IsLoginRequest v
unfolding assert_login_request
assert_login_request_sound (object r) h = record {
  fields = r;
  is_object = refl;
  version = is_one_sound _ (ground arith);
  kind = (is_text_iff "magna:login-request" _).0 (ground arith);
  client_id = is_filled_sound _ (ground arith);
  origin = is_filled_sound _ (ground arith);
  request_id = assert_hex_sound _ 16 "requestId" (ground arith);
  session_challenge = assert_hex_sound _ 32 "sessionChallenge" (ground arith);
  policy_hash = assert_prefixed_sound _ 32 "policyHash" (ground arith);
  policy = (assert_wire_policy_iff _).0 (ground arith);
  requirements = (assert_wire_login_requirements_iff _).0 (ground arith);
  response_mode = IsResponseMode-sound r (ground arith) (ground arith);
}
assert_login_request_sound _ h = cc

response_mode_complete :
    (r : Properties)
    → IsResponseMode r
    → (throw_if
          (not (is_text "postMessage" (get (codes "responseMode") r))
            && not (is_text "redirectCode" (get (codes "responseMode") r)))
          bad_response_mode
        >> throw_if
            (is_text "redirectCode" (get (codes "responseMode") r)
              && not (is_string (get (codes "redirectUri") r)))
            redirect_uri_required)
      ≡ ok tt
response_mode_complete r (inl post) = rw post
response_mode_complete r (inr (redirect, (s, uri))) = rw (redirect, uri)

assert_login_request_complete : (v : Value) → IsLoginRequest v → assert_login_request v ≡ ok tt
unfolding assert_login_request
assert_login_request_complete v w = rw w.is_object (
    rw (w.version, w.kind)
      (rw (is_filled_complete _ w.client_id, is_filled_complete _ w.origin)
        (rw (assert_hex_complete _ 16 "requestId" w.request_id) (
          rw (assert_hex_complete _ 32 "sessionChallenge" w.session_challenge) (
            rw (assert_prefixed_complete _ 32 "policyHash" w.policy_hash) (
              rw ((assert_wire_policy_iff _).1 w.policy) (
                rw ((assert_wire_login_requirements_iff _).1 w.requirements)
                  (response_mode_complete w.fields w.response_mode))))))))

-- `assertLoginRequest` returns exactly on the messages that are login requests.
pub assert_login_request_iff : (v : Value) → (assert_login_request v ≡ ok tt) ↔ IsLoginRequest v
assert_login_request_iff v = (assert_login_request_sound v, assert_login_request_complete v)
