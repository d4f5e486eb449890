-- ===== src/Client.antt =====
-- packages/magna-client/src: what a relying application runs. The check of the wallet's response, the
-- popup of a login, and the policy of a handle.
mod Examples
pub mod Responses
pub mod Chain
pub mod Popup
pub mod Redirect
use magna_monorepo.Base.{
  ℕ, zero, suc, ◌+◌, ◌-◌, Bool, true, false, ◌&&◌, ◌||◌, not, List, [], ◌∷◌, ◌++◌, Option, none,
  some, map, Result, ok, err, throw_if, ◌>>=◌, ◌>>◌, ltb, leb, ◌==◌, length, get_elem?,
  if◌then◌else◌,
}
use magna_monorepo.Base.Texts.{text_eq}
use magna_monorepo.Core.Policy.{Policy}
use magna_monorepo.Core.SessionAssertion.{SessionInput, SessionError, session_authorization_fields}

-- `receipt` is `none` when it is not a string.
pub record SessionVerificationReceipt : Type 0 where
  pub id : List ℕ
  pub kind : List ℕ
  pub receipt : Option (List ℕ)

-- `receipts` is `none` when it is not an array. The times are in seconds.
pub record SessionAssertion : Type 0 where
  pub v : ℕ
  pub verified : Bool
  pub request_id : List ℕ
  pub session_challenge : List ℕ
  pub policy_hash : List ℕ
  pub client_id : List ℕ
  pub origin : List ℕ
  pub authorization_contract : List ℕ
  pub issued_at : ℕ
  pub expires_at : ℕ
  pub receipt : List ℕ
  pub receipts : Option (List SessionVerificationReceipt)

pub record AuthorizationRequirement : Type 0 where
  pub id : List ℕ
  pub kind : List ℕ
  pub policy : Policy

pub record ExpectedRequestContext : Type 0 where
  pub client_id : List ℕ
  pub origin : List ℕ
  pub request_id : List ℕ
  pub session_challenge : List ℕ
  pub policy_hash : List ℕ
  pub consumer_gateway_address : List ℕ
  pub requirements : List AuthorizationRequirement

pub record SessionChainVerifierInput : Type 0 where
  pub aztec_node_url : List ℕ
  pub authorization_contract : List ℕ
  pub consumer_gateway_address : List ℕ
  pub request_id : List ℕ
  pub session_challenge : List ℕ
  pub expires_at : ℕ
  pub requirement_index : ℕ
  pub policy : Policy
  pub tx_hash : List ℕ

pub data ClientError : Type 0 where
  invalid_assertion request_id_mismatch session_challenge_mismatch : ClientError
  policy_hash_mismatch client_id_mismatch origin_mismatch contract_mismatch : ClientError
  expired_or_not_yet_valid invalid_lifetime receipt_count primary_receipt : ClientError
  receipt_mismatch : ℕ → ClientError
  not_mined reverted no_effect not_bound : ClientError
  bad_hash bad_address bad_tx_hash no_receipt : ClientError
  bad_session : SessionError → ClientError

pub record MagnaLoginResult : Type 0 where
  pub verified : Bool
  pub assertion : SessionAssertion
  pub receipt : List ℕ
  pub receipts : List SessionVerificationReceipt

-- The fields of the configuration that the check of a response reads.
pub record ChainConfig : Type 0 where
  pub aztec_node_url : List ℕ
  pub session_authorization_address : List ℕ

-- The receipt's transaction, when the receipt is there, fits the requirement and holds a string.
unfoldable pub matching_receipt :
    Option SessionVerificationReceipt → AuthorizationRequirement → ℕ → Result ClientError (List ℕ)
matching_receipt none requirement index = err (receipt_mismatch index)
matching_receipt (some r) requirement index = elim r.receipt [
  | none ↦ err (receipt_mismatch index)
  | some tx ↦
      if text_eq r.id requirement.id && text_eq r.kind requirement.kind
      then ok tx
      else err (receipt_mismatch index)
]

abbrev pub receipts_or_empty :
    Option (List SessionVerificationReceipt) → List SessionVerificationReceipt
receipts_or_empty none = []
receipts_or_empty (some rs) = rs

-- `!Array.isArray(receipts) || receipts.length !== n`
abbrev pub wrong_count : Option (List SessionVerificationReceipt) → ℕ → Bool
wrong_count none n = true
wrong_count (some rs) n = not (length rs == n)

-- `a.receipt === a.receipts[0]?.receipt`
abbrev pub is_primary : List ℕ → List SessionVerificationReceipt → Bool
is_primary receipt [] = false
is_primary receipt (r ∷ rs) = elim r.receipt [ none ↦ false | some tx ↦ text_eq receipt tx ]

-- `config.chainVerifier`, which throws or returns.
module _ (verify_chain : SessionChainVerifierInput → Result ClientError (Unit {0})) where
  abbrev pub chain_input :
      SessionAssertion
      → ExpectedRequestContext
      → ChainConfig
      → ℕ
      → Policy
      → List ℕ
      → SessionChainVerifierInput
  chain_input a expected config index policy tx = record {
    aztec_node_url = config.aztec_node_url;
    authorization_contract = a.authorization_contract;
    consumer_gateway_address = expected.consumer_gateway_address;
    request_id = expected.request_id;
    session_challenge = expected.session_challenge;
    expires_at = a.expires_at;
    requirement_index = index;
    policy = policy;
    tx_hash = tx;
  }

  -- The loop over `expected.requirements.entries()`.
  unfoldable pub check_receipts :
      SessionAssertion
      → ExpectedRequestContext
      → ChainConfig
      → List SessionVerificationReceipt
      → ℕ
      → List AuthorizationRequirement
      → Result ClientError (Unit {0})
  unfolding matching_receipt
  check_receipts a expected config receipts index [] = ok tt
  check_receipts a expected config receipts index (requirement ∷ requirements) = do
    tx ← matching_receipt (get_elem? receipts index) requirement index
    verify_chain (chain_input a expected config index requirement.policy tx)
    check_receipts a expected config receipts (index + 1) requirements

  unfoldable pub validate_login_response :
      SessionAssertion
      → ExpectedRequestContext
      → ChainConfig
      → ℕ
      → Result ClientError MagnaLoginResult
  validate_login_response a expected config now_seconds = do
    throw_if (not (a.v == 2) || not a.verified) invalid_assertion
    throw_if (not (text_eq a.request_id expected.request_id)) request_id_mismatch
    throw_if (not (text_eq a.session_challenge expected.session_challenge))
        session_challenge_mismatch
    throw_if (not (text_eq a.policy_hash expected.policy_hash)) policy_hash_mismatch
    throw_if (not (text_eq a.client_id expected.client_id)) client_id_mismatch
    throw_if (not (text_eq a.origin expected.origin)) origin_mismatch
    throw_if (not (text_eq a.authorization_contract config.session_authorization_address))
        contract_mismatch
    throw_if (leb a.expires_at now_seconds || ltb (now_seconds + 60) a.issued_at)
        expired_or_not_yet_valid
    throw_if (not (a.expires_at == a.issued_at + 300)) invalid_lifetime
    throw_if (wrong_count a.receipts (length expected.requirements)) receipt_count
    let receipts = receipts_or_empty a.receipts
    check_receipts a expected config receipts 0 expected.requirements
    throw_if (not (is_primary a.receipt receipts)) primary_receipt
    ok (record { verified = true; assertion = a; receipt = a.receipt; receipts = receipts })
