-- ===== src/Client/Responses.antt =====
-- The responses that `validateLoginResponse` accepts.
use magna_monorepo.Base.{
  ℕ, ◌+◌, ◌≤◌, ◌<◌, ◌≡◌, refl, sym, ap, subst, true, false, List, [], ◌∷◌, Option, none, some,
  Result, ok, >>=-eq-ok, Option-cases, inl, inr, length, get_elem?, arith, ◌==◌, ltb, leb,
}
use magna_monorepo.Base.Texts.{eq_of_text_eq, text_eq_iff, text_eq_refl}
use magna_monorepo.Client.{
  SessionVerificationReceipt, SessionAssertion, AuthorizationRequirement, ExpectedRequestContext,
  SessionChainVerifierInput, ClientError, MagnaLoginResult, ChainConfig, matching_receipt,
  receipts_or_empty, wrong_count, is_primary, chain_input, check_receipts, validate_login_response,
}

receipts_sound :
    (o : Option (List SessionVerificationReceipt)) (n : ℕ)
    → wrong_count o n ≡ false
    → (o ≡ some (receipts_or_empty o)) × (length (receipts_or_empty o) ≡ n)
receipts_sound none n h = cc
receipts_sound (some rs) n h = (refl, ground arith)

module _ (verify_chain : SessionChainVerifierInput → Result ClientError (Unit {0})) where
  -- Each requirement from `index` on has its receipt, and the chain verifier accepts its transaction
  -- for this request, this requirement and this policy.
  abbrev pub Authorized :
      SessionAssertion
      → ExpectedRequestContext
      → ChainConfig
      → List SessionVerificationReceipt
      → ℕ
      → List AuthorizationRequirement
      → Type 0
  Authorized a expected config receipts index [] = Unit {0}
  Authorized a expected config receipts index (r ∷ rs) =
      ((tx : List ℕ) × (get_elem? receipts index
          ≡ some (record { id = r.id; kind = r.kind; receipt = some tx }))
        × (verify_chain (chain_input verify_chain a expected config index r.policy tx) ≡ ok tt))
      × Authorized a expected config receipts (index + 1) rs

  pub record IsLogin (a : SessionAssertion) (expected : ExpectedRequestContext)
      (config : ChainConfig) (now : ℕ) (receipts : List SessionVerificationReceipt) : Type 0 where
    pub version : a.v ≡ 2
    pub verified : a.verified ≡ true
    pub request_id : a.request_id ≡ expected.request_id
    pub session_challenge : a.session_challenge ≡ expected.session_challenge
    pub policy_hash : a.policy_hash ≡ expected.policy_hash
    pub client_id : a.client_id ≡ expected.client_id
    pub origin : a.origin ≡ expected.origin
    pub contract : a.authorization_contract ≡ config.session_authorization_address
    pub not_expired : now < a.expires_at
    pub begun : a.issued_at ≤ now + 60
    pub lifetime : a.expires_at ≡ a.issued_at + 300
    pub has_receipts : a.receipts ≡ some receipts
    pub count : length receipts ≡ length expected.requirements
    pub authorized : Authorized a expected config receipts 0 expected.requirements
    pub primary : is_primary a.receipt receipts ≡ true

  matching_receipt_sound :
      (o : Option SessionVerificationReceipt) (r : AuthorizationRequirement) (index : ℕ)
      (tx : List ℕ)
      → matching_receipt o r index ≡ ok tx
      → o ≡ some (record { id = r.id; kind = r.kind; receipt = some tx })
  unfolding matching_receipt
  matching_receipt_sound none r index tx h = cc
  matching_receipt_sound (some q) r index tx h = elim (Option-cases q.receipt) [
    | inl none_here ↦ absurd (ground arith)
    | inr (t, found) ↦
        let same_id = eq_of_text_eq q.id r.id (ground arith) in
        let same_kind = eq_of_text_eq q.kind r.kind (ground arith) in
        let same_tx : t ≡ tx = ground arith in
        rw (sym same_id, sym same_kind, sym same_tx, sym found) refl
  ]

  matching_receipt_complete :
      (r : AuthorizationRequirement) (index : ℕ) (tx : List ℕ)
      → matching_receipt (some (record { id = r.id; kind = r.kind; receipt = some tx })) r index
        ≡ ok tx
  unfolding matching_receipt
  matching_receipt_complete r index tx = rw (text_eq_refl r.id, text_eq_refl r.kind) refl

  check_receipts_sound :
      (a : SessionAssertion) (expected : ExpectedRequestContext) (config : ChainConfig)
      (receipts : List SessionVerificationReceipt) (index : ℕ) (rs : List AuthorizationRequirement)
      → check_receipts verify_chain a expected config receipts index rs ≡ ok tt
      → Authorized a expected config receipts index rs
  unfolding check_receipts
  check_receipts_sound a expected config receipts index [] h = tt
  check_receipts_sound a expected config receipts index (r ∷ rs) h =
      let (tx, e₁, e₂) = >>=-eq-ok (matching_receipt (get_elem? receipts index) r index) _ h in
      let (_, e₃, e₄) =
        >>=-eq-ok (verify_chain (chain_input verify_chain a expected config index r.policy tx)) _
          e₂ in
      (
        (tx, matching_receipt_sound _ r index tx e₁, e₃),
        check_receipts_sound a expected config receipts (index + 1) rs e₄,
      )

  check_receipts_complete :
      (a : SessionAssertion) (expected : ExpectedRequestContext) (config : ChainConfig)
      (receipts : List SessionVerificationReceipt) (index : ℕ) (rs : List AuthorizationRequirement)
      → Authorized a expected config receipts index rs
      → check_receipts verify_chain a expected config receipts index rs ≡ ok tt
  unfolding check_receipts
  check_receipts_complete a expected config receipts index [] h = refl
  check_receipts_complete a expected config receipts index (r ∷ rs) ((tx, there, accepted), rest) =
      rw (there, matching_receipt_complete r index tx, accepted)
        (check_receipts_complete a expected config receipts (index + 1) rs rest)

  -- A result is returned only for an assertion of this request, alive, with as many receipts as there
  -- are requirements, each accepted by the chain verifier, and the result is that assertion.
  pub validate_login_response_sound :
      (a : SessionAssertion) (expected : ExpectedRequestContext) (config : ChainConfig) (now : ℕ)
      (result : MagnaLoginResult)
      → validate_login_response verify_chain a expected config now ≡ ok result
      → IsLogin a expected config now result.receipts
        × (result.assertion ≡ a)
        × (result.receipt ≡ a.receipt)
        × (result.verified ≡ true)
  validate_login_response_sound a expected config now result h =
      let final : record {
        verified = true;
        assertion = a;
        receipt = a.receipt;
        receipts = receipts_or_empty a.receipts;
      }
          ≡ result =
        unfold validate_login_response in ground arith in
      let counted : wrong_count a.receipts (length expected.requirements) ≡ false =
        unfold validate_login_response in ground arith in
      let (there, count) = receipts_sound a.receipts (length expected.requirements) counted in
      let same : receipts_or_empty a.receipts ≡ result.receipts =
        ap (λ (r : MagnaLoginResult). r.receipts) final in
      (
        subst (λ rs. IsLogin a expected config now rs) same
            (record {
              version = unfold validate_login_response in ground arith;
              verified = unfold validate_login_response in ground arith;
              request_id = eq_of_text_eq _ _ (unfold validate_login_response in ground arith);
              session_challenge =
                  eq_of_text_eq _ _ (unfold validate_login_response in ground arith);
              policy_hash = eq_of_text_eq _ _ (unfold validate_login_response in ground arith);
              client_id = eq_of_text_eq _ _ (unfold validate_login_response in ground arith);
              origin = eq_of_text_eq _ _ (unfold validate_login_response in ground arith);
              contract = eq_of_text_eq _ _ (unfold validate_login_response in ground arith);
              not_expired = unfold validate_login_response in ground arith;
              begun = unfold validate_login_response in ground arith;
              lifetime = unfold validate_login_response in ground arith;
              has_receipts = there;
              count = count;
              authorized =
                  check_receipts_sound a expected config (receipts_or_empty a.receipts) 0
                    expected.requirements (unfold validate_login_response in ground arith);
              primary = unfold validate_login_response in ground arith;
            }),
        ap (λ (r : MagnaLoginResult). r.assertion) (sym final),
        ap (λ (r : MagnaLoginResult). r.receipt) (sym final),
        ap (λ (r : MagnaLoginResult). r.verified) (sym final),
      )

  -- An assertion of this request, alive, with a receipt for each requirement that the chain verifier
  -- accepts, and the first of them as its primary one, is accepted and is the result.
  pub validate_login_response_complete :
      (a : SessionAssertion) (expected : ExpectedRequestContext) (config : ChainConfig) (now : ℕ)
      (receipts : List SessionVerificationReceipt)
      → IsLogin a expected config now receipts
      → validate_login_response verify_chain a expected config now
        ≡ ok (record { verified = true; assertion = a; receipt = a.receipt; receipts = receipts })
  unfolding validate_login_response check_receipts
  validate_login_response_complete a expected config now receipts is =
      let late : leb a.expires_at now ≡ false = ground (arith, is.not_expired) in
      let early : ltb (now + 60) a.issued_at ≡ false = ground (arith, is.begun) in
      let checked : check_receipts verify_chain a expected config receipts 0 expected.requirements
          ≡ ok tt =
        check_receipts_complete a expected config receipts 0 expected.requirements is.authorized in
      let life : (a.expires_at == a.issued_at + 300) ≡ true = ground (arith, is.lifetime) in
      let version : (a.v == 2) ≡ true = ground (arith, is.version) in
      let counted : wrong_count a.receipts (length expected.requirements) ≡ false =
        rw is.has_receipts (ground (arith, is.count)) in
      let same : receipts_or_empty a.receipts ≡ receipts = ap receipts_or_empty is.has_receipts in
      rw
        (
          version,
          is.verified,
          (text_eq_iff a.request_id expected.request_id).1 is.request_id,
          (text_eq_iff a.session_challenge expected.session_challenge).1 is.session_challenge,
          (text_eq_iff a.policy_hash expected.policy_hash).1 is.policy_hash,
          (text_eq_iff a.client_id expected.client_id).1 is.client_id,
          (text_eq_iff a.origin expected.origin).1 is.origin,
          (text_eq_iff a.authorization_contract config.session_authorization_address).1 is.contract,
          late,
          early,
          life,
          counted,
          same,
          checked,
          is.primary,
        )
        refl
