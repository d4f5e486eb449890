-- ===== src/Webauthn/Ceremony.antt =====
-- ceremony.ts: asking an authenticator for an assertion, and the checks around it. The browser's
-- credentials, the parser of JSON and a delegate are parameters.
pub mod Signatures
mod Examples
use magna_monorepo.Base.{
  ℕ, Bool, true, false, ◌||◌, not, List, [], ◌∷◌, ◌++◌, Option, none, some, Result, ok, err,
  throw_if, ◌>>=◌, ◌>>◌, map_err, if◌then◌else◌,
}
use magna_monorepo.Base.Texts.{codes, text_eq}
use magna_monorepo.Core.Values.{Value, string, boolean, object, Properties, get}
use magna_monorepo.Core.ConnectorProtocol.{is_text, has}
use magna_monorepo.Webauthn.Der.{DerError, decode_ecdsa_der_signature, normalize_s_to_low}

pub data CeremonyError : Type 0 where
  delegate_active not_public_key_credential no_prf malformed_client_data : CeremonyError
  unexpected_type origin_mismatch cross_origin : CeremonyError
  bad_signature : DerError → CeremonyError

-- The fields of a registration that an assertion needs.
pub record Registration : Type 0 where
  pub credential_id : List ℕ
  pub rp_id : List ℕ
  pub transports : List (List ℕ)

pub record AssertionResponse : Type 0 where
  pub signature : List ℕ
  pub authenticator_data : List ℕ
  pub client_data_json : List ℕ

pub record AssertionResult : Type 0 where
  pub signature_der : Option (List ℕ)
  pub signature_rs : List ℕ
  pub authenticator_data : List ℕ
  pub client_data_json : List ℕ

-- `transports` is `none` when the descriptor has no such field.
pub record CredentialDescriptor : Type 0 where
  pub kind : List ℕ
  pub id : List ℕ
  pub transports : Option (List (List ℕ))

-- The timeout is in milliseconds.
pub record AssertionRequest : Type 0 where
  pub challenge : List ℕ
  pub rp_id : List ℕ
  pub user_verification : List ℕ
  pub allow_credentials : List CredentialDescriptor
  pub timeout : ℕ

abbrev pub authenticator_transports : List (List ℕ)
authenticator_transports =
    codes "ble" ∷ codes "hybrid" ∷ codes "internal" ∷ codes "nfc" ∷ codes "usb" ∷ []

unfoldable pub recognized_transports : List (List ℕ) → List (List ℕ)
recognized_transports [] = []
recognized_transports (t ∷ ts) =
    let rest = recognized_transports ts in if has authenticator_transports t then t ∷ rest else rest

abbrev pub some_transports : List (List ℕ) → Option (List (List ℕ))
some_transports [] = none
some_transports (t ∷ ts) = some (t ∷ ts)

unfoldable pub credential_descriptor : Registration → CredentialDescriptor
credential_descriptor registration = record {
  kind = codes "public-key";
  id = registration.credential_id;
  transports = some_transports registration.transports;
}

-- What an assertion becomes; `none` is a credential that is no PublicKeyCredential. The decoder and the
-- low form give 32 bytes each, which fill the array of 64.
unfoldable pub assertion_of_response :
    Option AssertionResponse → Result CeremonyError AssertionResult
unfolding decode_ecdsa_der_signature normalize_s_to_low
assertion_of_response none = err not_public_key_credential
assertion_of_response (some response) = do
  (r, s) ← map_err bad_signature (decode_ecdsa_der_signature response.signature)
  low_s ← map_err bad_signature (normalize_s_to_low s)
  ok (record {
    signature_der = some response.signature;
    signature_rs = r ++ low_s;
    authenticator_data = response.authenticator_data;
    client_data_json = response.client_data_json;
  })

abbrev pub Delegate : Type 0
Delegate = Registration → List ℕ → Result CeremonyError AssertionResult

-- What `navigator.credentials.get` is asked for.
unfoldable pub assertion_request : Registration → List ℕ → AssertionRequest
unfolding credential_descriptor
assertion_request registration challenge = record {
  challenge = challenge;
  rp_id = registration.rp_id;
  user_verification = codes "required";
  allow_credentials = credential_descriptor registration ∷ [];
  timeout = 60000;
}

-- The asserter, with the delegate that is active when it is called.
unfoldable pub make_browser_asserter :
    (AssertionRequest → Option AssertionResponse)
    → Option Delegate
    → Registration
    → List ℕ
    → Result CeremonyError AssertionResult
unfolding assertion_of_response assertion_request
make_browser_asserter get_credential (some delegate) registration challenge =
    delegate registration challenge
make_browser_asserter get_credential none registration challenge =
    assertion_of_response (get_credential (assertion_request registration challenge))

-- What the call returns, and the delegate that is active behind it. The operation runs with the delegate
-- that is active.
unfoldable pub with_webauthn_assertion_delegate {ℓ} :
    {A : Type ℓ}
    → Option Delegate
    → Delegate
    → (Option Delegate → Result CeremonyError A)
    → Result CeremonyError A × Option Delegate
with_webauthn_assertion_delegate (some active) delegate operation =
    (err delegate_active, some active)
with_webauthn_assertion_delegate none delegate operation = (operation (some delegate), none)

-- The two results of the PRF extension: the secret and the salt of the account. `none` outside is a
-- credential that is no PublicKeyCredential.
unfoldable pub prf_outputs :
    Option (Option (List ℕ) × Option (List ℕ)) → Result CeremonyError (List ℕ × List ℕ)
prf_outputs none = err not_public_key_credential
prf_outputs (some (some first, some second)) = ok (first, second)
prf_outputs (some (some first, none)) = err no_prf
prf_outputs (some (none, second)) = err no_prf

-- `value === text`, and `value === true`.
abbrev pub is_string_of : List ℕ → Value → Bool
is_string_of text (string s) = text_eq s text
is_string_of text _ = false

abbrev pub is_true : Value → Bool
is_true (boolean b) = b
is_true _ = false

-- The checks on the object that the client data holds.
unfoldable pub check_client_data : List ℕ → Properties → Result CeremonyError (Unit {0})
check_client_data origin fields = do
  throw_if (not (is_text "webauthn.create" (get (codes "type") fields))) unexpected_type
  throw_if (not (is_string_of origin (get (codes "origin") fields))) origin_mismatch
  throw_if (is_true (get (codes "crossOrigin") fields)) cross_origin
  ok tt

abbrev pub if_object : List ℕ → Option Value → Result CeremonyError (Unit {0})
if_object origin (some (object fields)) = check_client_data origin fields
if_object origin _ = err malformed_client_data

-- `parse_json` decodes the bytes and parses their text, where that does not throw.
unfoldable pub assert_registration_client_data :
    (List ℕ → Option Value) → List ℕ → List ℕ → Result CeremonyError (Unit {0})
unfolding check_client_data
assert_registration_client_data parse_json origin client_data_json =
    if_object origin (parse_json client_data_json)
