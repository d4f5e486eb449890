-- ===== src/Webauthn/Ceremony/Examples.antt =====
-- The theorem on assertions at a signature of the numbers 1 and 2, and some runs of the checks.
use magna_monorepo.Base.{
  ◌≡◌, refl, subst, [], ◌∷◌, ◌++◌, Option, none, some, err, replicate, All, arith, true,
}
use magna_monorepo.Base.Numbers.{IsByte}
use magna_monorepo.Base.Texts.{codes}
use magna_monorepo.Core.Values.{string, boolean, end, property}
use magna_monorepo.Webauthn.Der.{read_integers, read_integer, check_integer, bytes_to_bigint}
use magna_monorepo.Webauthn.Ceremony.{
  cross_origin, Registration, AssertionResponse, AssertionResult, AssertionRequest,
  recognized_transports, make_browser_asserter, check_client_data,
}
use magna_monorepo.Webauthn.Ceremony.Signatures.{ComesFrom, make_browser_asserter-IsSigned}

abbrev the_response : AssertionResponse
the_response = record {
  signature = 48 ∷ 6 ∷ 2 ∷ 1 ∷ 1 ∷ 2 ∷ 1 ∷ 2 ∷ [];
  authenticator_data = 3 ∷ [];
  client_data_json = 4 ∷ [];
}

abbrev answer : AssertionRequest → Option AssertionResponse
answer request = some the_response

some_is : (q : AssertionResponse) → some the_response ≡ some q → the_response ≡ q
some_is q h = cc

small_bytes : All IsByte the_response.signature
small_bytes = (
  omega arith,
  (
    omega arith,
    (omega arith, (omega arith, (omega arith, (omega arith, (omega arith, (omega arith, tt)))))),
  ),
)

answer-bytes :
    (q : AssertionRequest) (response : AssertionResponse)
    → answer q ≡ some response
    → All IsByte response.signature
answer-bytes q response h =
    subst (λ (r : AssertionResponse). All IsByte r.signature) (some_is response h) small_bytes

abbrev a_key : Registration
a_key = record { credential_id = 1 ∷ []; rp_id = codes "app"; transports = codes "usb" ∷ [] }

abbrev the_assertion : AssertionResult
the_assertion = record {
  signature_der = some the_response.signature;
  signature_rs = (replicate 31 0 ++ (1 ∷ [])) ++ (replicate 31 0 ++ (2 ∷ []));
  authenticator_data = 3 ∷ [];
  client_data_json = 4 ∷ [];
}

transports_kept : recognized_transports (codes "usb" ∷ codes "smart" ∷ []) ≡ codes "usb" ∷ []
unfolding recognized_transports
transports_kept = refl

framed_refused :
    check_client_data (codes "https://w") (
      property (codes "type") (string (codes "webauthn.create")) (
        property
          (codes "origin")
          (string (codes "https://w"))
          (property (codes "crossOrigin") (boolean true) end)))
    ≡ err cross_origin
unfolding check_client_data
framed_refused = refl

make_browser_asserter-IsSigned_example : ComesFrom answer none a_key (5 ∷ []) the_assertion
unfolding make_browser_asserter read_integers read_integer check_integer bytes_to_bigint
make_browser_asserter-IsSigned_example =
    make_browser_asserter-IsSigned answer answer-bytes none a_key (5 ∷ []) the_assertion refl
