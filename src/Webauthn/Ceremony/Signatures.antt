-- ===== src/Webauthn/Ceremony/Signatures.antt =====
-- The signature that an assertion hands on.
use magna_monorepo.Base.{
  ℕ, ◌/◌, ◌≤◌, ◌≡◌, refl, sym, ap, ◌∙◌, subst, List, [], ◌∷◌, ◌++◌, Option, none, some, ok,
  >>=-eq-ok, ok_injective, map_err, map_err-ok, length, length-append, All, arith, Option-cases,
  inl, inr,
}
use magna_monorepo.Base.Numbers.{IsByte}
use magna_monorepo.Base.Texts.{codes}
use magna_monorepo.Webauthn.Der.{p256_order, decode_ecdsa_der_signature, normalize_s_to_low}
use magna_monorepo.Webauthn.Der.Encoding.{encode_signature, bytes_32}
use magna_monorepo.Webauthn.Der.Integers.{InRange}
use magna_monorepo.Webauthn.Der.LowS.{
  IsBytesOf, low, low_lem, bytes_32-IsBytesOf, normalize_s_to_low-IsBytesOf,
}
use magna_monorepo.Webauthn.Der.Strict.{decode_ecdsa_der_signature_strict}
use magna_monorepo.Webauthn.Ceremony.{
  bad_signature, Registration, AssertionResponse, AssertionResult, AssertionRequest,
  CredentialDescriptor, credential_descriptor, some_transports, assertion_request, Delegate,
  assertion_of_response, make_browser_asserter,
}

-- The authenticator's signature is the DER encoding of two numbers in range, and the assertion has the
-- 32 bytes of the first, then those of the low form of the second.
pub record IsSigned (response : AssertionResponse) (a : AssertionResult) : Type 0 where
  pub r : ℕ
  pub s : ℕ
  pub low_s : List ℕ
  pub r_range : InRange r
  pub s_range : InRange s
  pub encoded : response.signature ≡ encode_signature r s
  pub joined : a.signature_rs ≡ bytes_32 r ++ low_s
  pub low_bytes : IsBytesOf (low s) low_s
  pub is_low : low s ≤ p256_order / 2
  pub long : length a.signature_rs ≡ 64

in_32_bytes : (v : ℕ) → InRange v → IsBytesOf v (bytes_32 v)
in_32_bytes v h = bytes_32-IsBytesOf v (omega arith)

same_join : (r x l t : List ℕ) → r ≡ x → l ≡ t → r ++ t ≡ x ++ l
same_join r x l t e k = ap (λ (z : List ℕ). z ++ t) e ∙ ap (λ (z : List ℕ). x ++ z) (sym k)

signed :
    (response : AssertionResponse) (a : AssertionResult)
    → All IsByte response.signature
    → assertion_of_response (some response) ≡ ok a
    → IsSigned response a
unfolding assertion_of_response
signed response a bytes h =
    let ((r, s), e₁, h₁) =
      >>=-eq-ok (map_err bad_signature (decode_ecdsa_der_signature response.signature)) _ h in
    let (t, e₂, h₂) = >>=-eq-ok (map_err bad_signature (normalize_s_to_low s)) _ h₁ in
    let (m, n, der, m_range, n_range, r_is, s_is) =
      decode_ecdsa_der_signature_strict response.signature r s bytes
        (map_err-ok bad_signature _ (r, s) e₁) in
    let (low_s, low_is, low_bytes) =
      normalize_s_to_low-IsBytesOf s n n_range
        (subst (IsBytesOf n) (sym s_is) (in_32_bytes n n_range)) in
    let same : low_s ≡ t = ok_injective (sym low_is ∙ map_err-ok bad_signature _ t e₂) in
    let joined : a.signature_rs ≡ bytes_32 m ++ low_s =
      ap (λ (x : AssertionResult). x.signature_rs) (sym (ok_injective h₂))
      ∙ same_join r (bytes_32 m) low_s t r_is same in
    record {
      r = m;
      s = n;
      low_s = low_s;
      r_range = m_range;
      s_range = n_range;
      encoded = der;
      joined = joined;
      low_bytes = low_bytes;
      is_low = (low_lem n n_range).1;
      long =
          ap length joined
          ∙ omega
              (arith, length-append (bytes_32 m) low_s, (in_32_bytes m m_range).len, low_bytes.len);
    }

-- A request for this challenge and relying party that insists on the user's verification, and allows
-- the credential of the registration only, with its transports where it has some.
pub record AsksFor (registration : Registration) (challenge : List ℕ) (q : AssertionRequest)
    : Type 0 where
  pub credential : CredentialDescriptor
  pub challenge_is : q.challenge ≡ challenge
  pub rp_is : q.rp_id ≡ registration.rp_id
  pub verified : q.user_verification ≡ codes "required"
  pub only : q.allow_credentials ≡ credential ∷ []
  pub key_is : credential.id ≡ registration.credential_id
  pub transports_are : credential.transports ≡ some_transports registration.transports

assertion_request-AsksFor :
    (registration : Registration) (challenge : List ℕ)
    → AsksFor registration challenge (assertion_request registration challenge)
unfolding assertion_request
assertion_request-AsksFor registration challenge = record {
  credential = credential_descriptor registration;
  challenge_is = refl;
  rp_is = refl;
  verified = refl;
  only = refl;
  key_is = refl;
  transports_are = refl;
}

-- The assertion of the browser's credential for the registration and the challenge.
pub record IsBrowsers (get_credential : AssertionRequest → Option AssertionResponse)
    (registration : Registration) (challenge : List ℕ) (a : AssertionResult) : Type 0 where
  pub request : AssertionRequest
  pub response : AssertionResponse
  pub asks : AsksFor registration challenge request
  pub answered : get_credential request ≡ some response
  pub is_signed : IsSigned response a
  pub der_is : a.signature_der ≡ some response.signature
  pub authenticator_data_is : a.authenticator_data ≡ response.authenticator_data
  pub client_data_is : a.client_data_json ≡ response.client_data_json

-- Whose assertion it is: the delegate's, if one is active.
abbrev pub ComesFrom :
    (AssertionRequest → Option AssertionResponse)
    → Option Delegate
    → Registration
    → List ℕ
    → AssertionResult
    → Type 0
ComesFrom get_credential none registration challenge a =
    IsBrowsers get_credential registration challenge a
ComesFrom get_credential (some delegate) registration challenge a =
    delegate registration challenge ≡ ok a

-- The data that is handed on with the signature.
handed_on :
    (response : AssertionResponse) (a : AssertionResult)
    → assertion_of_response (some response) ≡ ok a
    → (a.signature_der ≡ some response.signature)
      × (a.authenticator_data ≡ response.authenticator_data)
      × (a.client_data_json ≡ response.client_data_json)
unfolding assertion_of_response
handed_on response a h =
    let ((r, s), _, h₁) =
      >>=-eq-ok (map_err bad_signature (decode_ecdsa_der_signature response.signature)) _ h in
    let (t, _, h₂) = >>=-eq-ok (map_err bad_signature (normalize_s_to_low s)) _ h₁ in
    let same = sym (ok_injective h₂) in
    (
      ap (λ (x : AssertionResult). x.signature_der) same,
      ap (λ (x : AssertionResult). x.authenticator_data) same,
      ap (λ (x : AssertionResult). x.client_data_json) same,
    )

-- Where the signatures of the browser's answers are rows of bytes: an assertion that the asserter returns
-- is what the active delegate returned, unchecked, if there is one. Else it is the browser's answer to a
-- request for the challenge, the relying party and the registration's key that insists on the user's
-- verification: its data is the authenticator's, its 64 bytes are the two numbers of the authenticator's
-- signature, the second in its low form, and that signature, which is handed on too, was their one DER
-- encoding.
pub make_browser_asserter-IsSigned :
    (get_credential : AssertionRequest → Option AssertionResponse)
    → ((q : AssertionRequest) (response : AssertionResponse)
        → get_credential q ≡ some response
        → All IsByte response.signature)
    → (delegate : Option Delegate) (registration : Registration) (challenge : List ℕ)
      (a : AssertionResult)
    → make_browser_asserter get_credential delegate registration challenge ≡ ok a
    → ComesFrom get_credential delegate registration challenge a
unfolding make_browser_asserter
make_browser_asserter-IsSigned get_credential bytes (some delegate) registration challenge a h = h
make_browser_asserter-IsSigned get_credential bytes none registration challenge a h =
    let request = assertion_request registration challenge in
    elim (Option-cases (get_credential request)) [
      | inl missing ↦ absurd (unfold assertion_of_response in let e = rw missing at h in cc)
      | inr (response, found) ↦
          let made : assertion_of_response (some response) ≡ ok a =
            ap assertion_of_response (sym found) ∙ h in
          let (der, authenticator_data, client_data) = handed_on response a made in
          record {
            request = request;
            response = response;
            asks = assertion_request-AsksFor registration challenge;
            answered = found;
            is_signed = signed response a (bytes request response found) made;
            der_is = der;
            authenticator_data_is = authenticator_data;
            client_data_is = client_data;
          }
    ]
