-- ===== src/Client/Chain/Examples.antt =====
-- The default chain verifier at one transaction.
use magna_monorepo.Base.{ℕ, ◌≡◌, ◌↔◌, List, [], ◌∷◌, true, Option, some, ok, replicate}
use magna_monorepo.Base.Texts.{codes}
use magna_monorepo.Client.{SessionChainVerifierInput}
use magna_monorepo.Client.Chain.{
  TxReceipt, verify_aztec_session_authorization, IsAuthorized,
  verify_aztec_session_authorization_iff,
}

abbrev one_receipt_of : List ℕ → ℕ → Option TxReceipt
one_receipt_of url tx = some (record { mined = true; succeeded = true; nullifiers = some (7 ∷ []) })

abbrev one_input : SessionChainVerifierInput
one_input = record {
  aztec_node_url = codes "node";
  authorization_contract = codes "0x01";
  consumer_gateway_address = replicate 64 b'0';
  request_id = replicate 32 b'1';
  session_challenge = replicate 64 b'0';
  expires_at = 1300;
  requirement_index = 0;
  policy = record { credential_type = 1; constraints = [] };
  tx_hash = codes "0x0a";
}

verify_aztec_session_authorization_iff_example :
    (verify_aztec_session_authorization
        (λ values ds. some 7)
        4
        (λ s. some 1)
        (λ s. some 2)
        one_receipt_of
        one_input
      ≡ ok tt)
    ↔ IsAuthorized (λ values ds. some 7) 4 (λ s. some 1) (λ s. some 2) one_receipt_of one_input
verify_aztec_session_authorization_iff_example =
    verify_aztec_session_authorization_iff (λ values ds. some 7) 4 (λ s. some 1) (λ s. some 2)
      one_receipt_of one_input
