-- ===== src/Client/Redirect.antt =====
-- packages/magna-client/src/redirect.ts: a login by a redirect of the whole page. The policy hash, the
-- chain verifier, the random bytes, the clock and the exchange of a code are parameters.
pub mod Pending
mod Examples
use magna_monorepo.Base.{ℕ, List, [], ◌∷◌, Option, none, some, Result, ok, err, ◌>>=◌, map_err}
use magna_monorepo.Base.Texts.{codes}
use magna_monorepo.Base.Maps.{lookup, insert, remove}
use magna_monorepo.Core.Values.{Value}
use magna_monorepo.Core.Policy.{Policy, PolicyError, normalize_policy}
use magna_monorepo.Core.ConnectorProtocol.{ProtocolError}
use magna_monorepo.Core.ConnectorProtocol.Wire.{
  random_hex, random_field_hex, policy_to_wire, policy_from_wire,
}
use magna_monorepo.Client.{
  SessionAssertion, ExpectedRequestContext, SessionChainVerifierInput, ClientError,
  MagnaLoginResult, ChainConfig, validate_login_response,
}

abbrev pub pending_key : List ℕ
pending_key = codes "magna-pending-login-v1"

pub record PendingLogin : Type 0 where
  pub request_id : List ℕ
  pub session_challenge : List ℕ
  pub policy_hash : List ℕ
  pub policy : Value

-- An item of the storage is what `JSON.parse` makes of its text: the record of a login, or nothing that
-- can be used. A text that gives something else than such a record counts as the latter.
pub data StoredItem : Type 0 where
  stored : PendingLogin → StoredItem
  unusable : List ℕ → StoredItem

abbrev pub Storage : Type 0
Storage = List (List ℕ × StoredItem)

pub record RedirectConfig : Type 0 where
  pub client_id : List ℕ
  pub wallet_origin : List ℕ
  pub redirect_uri : List ℕ
  pub consumer_gateway_address : List ℕ
  pub chain : ChainConfig

-- The request that the wallet's page is given; the text of it in the page's address is left out.
pub record RedirectRequest : Type 0 where
  pub v : ℕ
  pub kind : List ℕ
  pub client_id : List ℕ
  pub origin : List ℕ
  pub request_id : List ℕ
  pub session_challenge : List ℕ
  pub policy : Value
  pub policy_hash : List ℕ
  pub response_mode : List ℕ
  pub redirect_uri : List ℕ

pub data RedirectError : Type 0 where
  no_pending_login unusable_pending_login : RedirectError
  exchange_failed : ℕ → RedirectError
  bad_policy : ProtocolError → RedirectError
  refused : ClientError → RedirectError

-- `computePolicyHash`. The two rows of bytes are those of `randomHex(16)` and `randomFieldHex()`.
module _ (policy_hash : Policy → List ℕ) where
  unfoldable pub redirect_request :
      RedirectConfig → Policy → List ℕ → List ℕ → List ℕ → RedirectRequest
  unfolding random_hex random_field_hex policy_to_wire
  redirect_request config normalized id_bytes challenge_bytes origin = record {
    v = 1;
    kind = codes "magna:login-request";
    client_id = config.client_id;
    origin = origin;
    request_id = random_hex id_bytes;
    session_challenge = random_field_hex challenge_bytes;
    policy = policy_to_wire normalized;
    policy_hash = policy_hash normalized;
    response_mode = codes "redirectCode";
    redirect_uri = config.redirect_uri;
  }

  abbrev pub pending_of : RedirectRequest → PendingLogin
  pending_of request = record {
    request_id = request.request_id;
    session_challenge = request.session_challenge;
    policy_hash = request.policy_hash;
    policy = request.policy;
  }

  -- The request that the page leaves with, and the storage it leaves.
  unfoldable pub login_with_redirect :
      RedirectConfig
      → Policy
      → List ℕ
      → List ℕ
      → List ℕ
      → Storage
      → Result PolicyError (RedirectRequest × Storage)
  unfolding normalize_policy redirect_request insert
  login_with_redirect config policy id_bytes challenge_bytes origin storage = do
    normalized ← normalize_policy policy
    let request = redirect_request config normalized id_bytes challenge_bytes origin
    ok (request, insert pending_key (stored (pending_of request)) storage)

-- `config.chainVerifier`, and the endpoint: the assertion for a code, or the status of its failure.
module _ (verify_chain : SessionChainVerifierInput → Result ClientError (Unit {0}))
    (exchange : List ℕ → Result ℕ SessionAssertion) where
  abbrev pub redirect_context :
      RedirectConfig → List ℕ → PendingLogin → Policy → ExpectedRequestContext
  redirect_context config origin pending policy = record {
    client_id = config.client_id;
    origin = origin;
    request_id = pending.request_id;
    session_challenge = pending.session_challenge;
    policy_hash = pending.policy_hash;
    consumer_gateway_address = config.consumer_gateway_address;
    requirements = record { id = codes "default"; kind = codes "policy"; policy = policy } ∷ [];
  }

  -- What follows once the pending record is out of the storage.
  unfoldable pub exchange_pending :
      RedirectConfig
      → List ℕ
      → List ℕ
      → ℕ
      → PendingLogin
      → Result RedirectError (Option MagnaLoginResult)
  unfolding policy_from_wire validate_login_response
  exchange_pending config code origin now pending = do
    assertion ← map_err exchange_failed (exchange code)
    policy ← map_err bad_policy (policy_from_wire pending.policy)
    result ← map_err refused (
        validate_login_response verify_chain assertion
          (redirect_context config origin pending policy) config.chain now)
    ok (some result)

  -- `if (!pendingRaw) throw …`, `storage.removeItem`, `JSON.parse`.
  abbrev pub if_pending :
      RedirectConfig
      → List ℕ
      → List ℕ
      → ℕ
      → Storage
      → Option StoredItem
      → Result RedirectError (Option MagnaLoginResult) × Storage
  if_pending config code origin now storage none = (err no_pending_login, storage)
  if_pending config code origin now storage (some (unusable [])) = (err no_pending_login, storage)
  if_pending config code origin now storage (some (unusable (c ∷ cs))) =
      (err unusable_pending_login, remove pending_key storage)
  if_pending config code origin now storage (some (stored pending)) =
      (exchange_pending config code origin now pending, remove pending_key storage)

  -- The address is given as its parameter `magna_code` and its origin. What is returned, and the storage
  -- that is left.
  unfoldable pub complete_redirect_login :
      RedirectConfig
      → Option (List ℕ)
      → List ℕ
      → ℕ
      → Storage
      → Result RedirectError (Option MagnaLoginResult) × Storage
  unfolding lookup remove exchange_pending
  complete_redirect_login config none origin now storage = (ok none, storage)
  complete_redirect_login config (some []) origin now storage = (ok none, storage)
  complete_redirect_login config (some (c ∷ cs)) origin now storage =
      if_pending config (c ∷ cs) origin now storage (lookup pending_key storage)
