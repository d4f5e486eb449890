-- ===== src/Client/Chain.antt =====
-- packages/magna-client/src/connector.ts, `verifyAztecSessionAuthorization`: the chain verifier that is
-- used when the configuration has none. The hash, the parsing of addresses and transaction hashes, and
-- the node are parameters, `none` where the call of them throws.
mod Examples
use magna_monorepo.Base.{
  ℕ, ◌≡◌, refl, ap, Bool, true, false, ◌||◌, not, List, [], ◌∷◌, Option, none, some, Result, ok,
  err, ok_injective, throw_if, ◌>>=◌, ◌>>◌, >>=-eq-ok, Option-cases, inl, inr, arith, ◌==◌, ◌↔◌,
}
use magna_monorepo.Base.Numbers.{pos}
use magna_monorepo.Core.Values.{integer}
use magna_monorepo.Core.SessionAssertion.{SessionInput, SessionError, session_authorization_fields}
use magna_monorepo.Client.{
  SessionChainVerifierInput, ClientError, not_mined, reverted, no_effect, not_bound, bad_hash,
  bad_address, bad_tx_hash, no_receipt, bad_session,
}

-- What the node says of a transaction; `nullifiers` is `none` when it has no effect.
pub record TxReceipt : Type 0 where
  pub mined : Bool
  pub succeeded : Bool
  pub nullifiers : Option (List ℕ)

abbrev pub session_input : SessionChainVerifierInput → SessionInput
session_input input = record {
  consumer_gateway_address = input.consumer_gateway_address;
  request_id = input.request_id;
  session_challenge = input.session_challenge;
  expires_at = integer (pos input.expires_at);
  requirement_index = integer (pos input.requirement_index);
  policy = input.policy;
}

abbrev pub lift_session : Result SessionError (List ℕ) → Result ClientError (List ℕ)
lift_session (ok fields) = ok fields
lift_session (err e) = err (bad_session e)

abbrev pub or_throw {ℓ} : {A : Type ℓ} → ClientError → Option A → Result ClientError A
or_throw e none = err e
or_throw e (some x) = ok x

or_throw-eq-ok {ℓ} :
    {A : Type ℓ} (e : ClientError) (o : Option A) {x : A} → or_throw e o ≡ ok x → o ≡ some x
or_throw-eq-ok e none h = cc
or_throw-eq-ok e (some y) h = ap some (ok_injective h)

lift_session-eq-ok :
    (r : Result SessionError (List ℕ)) (fields : List ℕ)
    → lift_session r ≡ ok fields
    → r ≡ ok fields
lift_session-eq-ok (ok x) fields h = ap ok (ok_injective h)
lift_session-eq-ok (err e) fields h = cc

-- `nullifiers.some(nullifier => nullifier.equals(expected))`
abbrev pub contains : List ℕ → ℕ → Bool
contains [] expected = false
contains (n ∷ ns) expected = n == expected || contains ns expected

-- `poseidon2HashWithSeparator`, the separator of siloed nullifiers, `AztecAddress.fromStringUnsafe` and
-- `TxHash.fromString`, and `getTxReceipt` of the node at a URL.
module _ (hash : List ℕ → ℕ → Option ℕ) (siloed_nullifier : ℕ) (to_address : List ℕ → Option ℕ)
    (to_tx_hash : List ℕ → Option ℕ) (get_tx_receipt : List ℕ → ℕ → Option TxReceipt) where
  unfoldable pub verify_aztec_session_authorization :
      SessionChainVerifierInput → Result ClientError (Unit {0})
  verify_aztec_session_authorization input = do
    fields ← lift_session (session_authorization_fields (session_input input))
    inner ← or_throw bad_hash (hash fields 0x4d534132)
    address ← or_throw bad_address (to_address input.authorization_contract)
    expected ← or_throw bad_hash (hash (address ∷ inner ∷ []) siloed_nullifier)
    tx_hash ← or_throw bad_tx_hash (to_tx_hash input.tx_hash)
    receipt ← or_throw no_receipt (get_tx_receipt input.aztec_node_url tx_hash)
    throw_if (not receipt.mined) not_mined
    throw_if (not receipt.succeeded) reverted
    nullifiers ← or_throw no_effect receipt.nullifiers
    throw_if (not (contains nullifiers expected)) not_bound

  -- The nullifier that the authorization contract emits for the values of a login.
  pub record IsExpected (input : SessionChainVerifierInput) (expected : ℕ) : Type 0 where
    pub fields : List ℕ
    pub inner : ℕ
    pub address : ℕ
    pub commits : session_authorization_fields (session_input input) ≡ ok fields
    pub inner_is : hash fields 0x4d534132 ≡ some inner
    pub address_is : to_address input.authorization_contract ≡ some address
    pub siloed : hash (address ∷ inner ∷ []) siloed_nullifier ≡ some expected

  pub record IsAuthorized (input : SessionChainVerifierInput) : Type 0 where
    pub expected : ℕ
    pub tx_hash : ℕ
    pub receipt : TxReceipt
    pub nullifiers : List ℕ
    pub is_expected : IsExpected input expected
    pub tx_hash_is : to_tx_hash input.tx_hash ≡ some tx_hash
    pub receipt_is : get_tx_receipt input.aztec_node_url tx_hash ≡ some receipt
    pub mined : receipt.mined ≡ true
    pub succeeded : receipt.succeeded ≡ true
    pub effect : receipt.nullifiers ≡ some nullifiers
    pub emitted : contains nullifiers expected ≡ true

  authorization_sound :
      (input : SessionChainVerifierInput)
      → verify_aztec_session_authorization input ≡ ok tt
      → IsAuthorized input
  unfolding verify_aztec_session_authorization
  authorization_sound input h =
      let (fields, commits, h₁) =
        >>=-eq-ok (lift_session (session_authorization_fields (session_input input))) _ h in
      let (inner, i, h₂) =
        >>=-eq-ok (or_throw ClientError.bad_hash (hash fields 0x4d534132)) _ h₁ in
      let (address, a, h₃) =
        >>=-eq-ok (or_throw ClientError.bad_address (to_address input.authorization_contract)) _
          h₂ in
      let (expected, e, h₄) =
        >>=-eq-ok (or_throw ClientError.bad_hash (hash (address ∷ inner ∷ []) siloed_nullifier)) _
          h₃ in
      let (tx_hash, x, h₅) =
        >>=-eq-ok (or_throw ClientError.bad_tx_hash (to_tx_hash input.tx_hash)) _ h₄ in
      let (receipt, r, h₆) =
        >>=-eq-ok (or_throw ClientError.no_receipt (get_tx_receipt input.aztec_node_url tx_hash)) _
          h₅ in
      let (_, mined, h₇) = >>=-eq-ok (throw_if (not receipt.mined) ClientError.not_mined) _ h₆ in
      let (_, succeeded, h₈) =
        >>=-eq-ok (throw_if (not receipt.succeeded) ClientError.reverted) _ h₇ in
      let (nullifiers, n, h₉) =
        >>=-eq-ok (or_throw ClientError.no_effect receipt.nullifiers) _ h₈ in
      record {
        expected = expected;
        tx_hash = tx_hash;
        receipt = receipt;
        nullifiers = nullifiers;
        is_expected = record {
          fields = fields;
          inner = inner;
          address = address;
          commits = lift_session-eq-ok _ fields commits;
          inner_is = or_throw-eq-ok bad_hash _ i;
          address_is = or_throw-eq-ok bad_address _ a;
          siloed = or_throw-eq-ok bad_hash _ e;
        };
        tx_hash_is = or_throw-eq-ok bad_tx_hash _ x;
        receipt_is = or_throw-eq-ok no_receipt _ r;
        mined = ground arith;
        succeeded = ground arith;
        effect = or_throw-eq-ok no_effect _ n;
        emitted = ground arith;
      }

  -- The verifier returns exactly when the values of the login, the contract's address and the hash of
  -- the transaction can be read and hashed, the node has a receipt, the transaction is mined and
  -- succeeded, and its effect contains the nullifier, siloed to the contract, of this gateway, request,
  -- challenge, expiry, requirement and policy.
  pub verify_aztec_session_authorization_iff :
      (input : SessionChainVerifierInput)
      → (verify_aztec_session_authorization input ≡ ok tt) ↔ IsAuthorized input
  unfolding verify_aztec_session_authorization
  verify_aztec_session_authorization_iff input = (
    authorization_sound input,
    λ is.
        rw
          (
            is.is_expected.commits, is.is_expected.inner_is, is.is_expected.address_is,
            is.is_expected.siloed, is.tx_hash_is, is.receipt_is, is.mined, is.succeeded, is.effect,
            is.emitted,
          )
          refl,
  )
