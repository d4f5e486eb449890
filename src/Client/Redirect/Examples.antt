-- ===== src/Client/Redirect/Examples.antt =====
-- The theorem on logins by redirect at one login.
use magna_monorepo.Base.{
  ℕ, ◌≡◌, refl, true, List, [], ◌∷◌, none, some, Result, ok, err, if◌then◌else◌, replicate,
}
use magna_monorepo.Base.Numbers.{pos}
use magna_monorepo.Base.Texts.{codes, text_eq}
use magna_monorepo.Base.Maps.{lookup}
use magna_monorepo.Core.Bytes.{to_string_radix, bytes_to_hex}
use magna_monorepo.Core.Policy.{Policy}
use magna_monorepo.Core.ConnectorProtocol.Wire.{random_hex, random_field_hex}
use magna_monorepo.Client.{
  SessionVerificationReceipt, SessionAssertion, SessionChainVerifierInput, ClientError, not_mined,
  MagnaLoginResult, check_receipts,
}
use magna_monorepo.Client.Redirect.{
  pending_key, RedirectConfig, RedirectRequest, Storage, stored, pending_of, redirect_request,
  login_with_redirect, complete_redirect_login,
}
use magna_monorepo.Client.Redirect.Pending.{Answers, complete_redirect_login-Answers}

abbrev knows : SessionChainVerifierInput → Result ClientError (Unit {0})
knows input = if text_eq input.tx_hash (codes "0x0a") then ok tt else err not_mined

abbrev config : RedirectConfig
config = record {
  client_id = codes "app";
  wallet_origin = codes "https://wallet";
  redirect_uri = codes "https://app/done";
  consumer_gateway_address = codes "0x02";
  chain = record { aztec_node_url = codes "node"; session_authorization_address = codes "0x01" };
}

abbrev a_policy : Policy
a_policy = record { credential_type = 1; constraints = [] }

abbrev one_hash : Policy → List ℕ
one_hash policy = codes "h"

abbrev one_receipt : SessionVerificationReceipt
one_receipt = record { id = codes "default"; kind = codes "policy"; receipt = some (codes "0x0a") }

abbrev an_assertion : SessionAssertion
an_assertion = record {
  v = 2;
  verified = true;
  request_id = random_hex (7 ∷ []);
  session_challenge = random_field_hex (9 ∷ []);
  policy_hash = codes "h";
  client_id = codes "app";
  origin = codes "https://app";
  authorization_contract = codes "0x01";
  issued_at = 1000;
  expires_at = 1300;
  receipt = codes "0x0a";
  receipts = some (one_receipt ∷ []);
}

abbrev the_result : MagnaLoginResult
the_result = record {
  verified = true;
  assertion = an_assertion;
  receipt = codes "0x0a";
  receipts = one_receipt ∷ [];
}

abbrev exchange_one : List ℕ → Result ℕ SessionAssertion
exchange_one code = if text_eq code (codes "code") then ok an_assertion else err 404

abbrev normal_policy : Policy
normal_policy = record {
  credential_type = 1;
  constraints = replicate 8 (record { claim_id = 0; op = 0; value = pos 0 });
}

abbrev the_request : RedirectRequest
the_request = redirect_request one_hash config normal_policy (7 ∷ []) (9 ∷ []) (codes "https://app")

abbrev after : Storage
after = (pending_key, stored (pending_of one_hash the_request)) ∷ []

complete_redirect_login-Answers_example :
    Answers one_hash knows exchange_one the_request an_assertion
    × (lookup pending_key
          (complete_redirect_login knows exchange_one config
            (some (codes "code"))
            (codes "https://app")
            1100
            after).1
        ≡ none)
unfolding login_with_redirect complete_redirect_login to_string_radix bytes_to_hex check_receipts
complete_redirect_login-Answers_example =
    complete_redirect_login-Answers one_hash knows exchange_one config a_policy (7 ∷ []) (9 ∷ [])
      (some (codes "code")) (codes "https://app") 1100 [] after the_request the_result refl refl
