-- ===== src/Client/Redirect/Pending.antt =====
-- A login by redirect completes once, and for the request that was sent.
use magna_monorepo.Base.{
  ℕ, ◌≡◌, refl, sym, ap, ◌∙◌, subst, List, [], ◌∷◌, Option, none, some, Result, ok, >>=-eq-ok,
  ok_injective, map_err, map_err-ok,
}
use magna_monorepo.Base.Maps.{lookup, remove, lookup-insert, lookup-remove}
use magna_monorepo.Core.Policy.{Policy, normalize_policy}
use magna_monorepo.Core.ConnectorProtocol.Wire.{policy_from_wire}
use magna_monorepo.Client.{
  SessionAssertion, SessionChainVerifierInput, ClientError, MagnaLoginResult,
  validate_login_response,
}
use magna_monorepo.Client.Responses.{IsLogin, validate_login_response_sound}
use magna_monorepo.Client.Redirect.{
  pending_key, PendingLogin, StoredItem, stored, unusable, Storage, RedirectConfig, RedirectRequest,
  bad_policy, exchange_failed, refused, redirect_request, pending_of, login_with_redirect,
  redirect_context, exchange_pending, if_pending, complete_redirect_login,
}

some_is : (a b : MagnaLoginResult) → some a ≡ some b → a ≡ b
some_is a b h = ap (λ (o : Option MagnaLoginResult). elim o [ none ↦ a | some r ↦ r ]) h

none_is : (r : MagnaLoginResult) → none ≡ some r → ⊥
none_is r h = cc

stored_is : (p q : PendingLogin) → some (stored p) ≡ some (stored q) → p ≡ q
stored_is p q h =
    ap
      (λ (o : Option StoredItem). elim o [ none ↦ p | some (stored r) ↦ r | some (unusable t) ↦ p ])
      h

module _ (verify_chain : SessionChainVerifierInput → Result ClientError (Unit {0}))
    (exchange : List ℕ → Result ℕ SessionAssertion) where
  -- What a completed login promises of the record that was pending: the assertion that the code was
  -- exchanged for is a login for it.
  pub record IsCompleted (config : RedirectConfig) (origin : List ℕ) (now : ℕ)
      (pending : PendingLogin) (result : MagnaLoginResult) : Type 0 where
    pub code : List ℕ
    pub policy : Policy
    pub exchanged : exchange code ≡ ok result.assertion
    pub policy_is : policy_from_wire pending.policy ≡ ok policy
    pub login :
        IsLogin verify_chain result.assertion
          (redirect_context verify_chain exchange config origin pending policy)
          config.chain
          now
          result.receipts

  exchange_pending_sound :
      (config : RedirectConfig) (code origin : List ℕ) (now : ℕ) (pending : PendingLogin)
      (result : MagnaLoginResult)
      → exchange_pending verify_chain exchange config code origin now pending ≡ ok (some result)
      → IsCompleted config origin now pending result
  unfolding exchange_pending
  exchange_pending_sound config code origin now pending result h =
      let (a, e₁, h₁) = >>=-eq-ok (map_err exchange_failed (exchange code)) _ h in
      let (policy, e₂, h₂) =
        >>=-eq-ok (map_err bad_policy (policy_from_wire pending.policy)) _ h₁ in
      let expected = redirect_context verify_chain exchange config origin pending policy in
      let (r, e₃, h₃) =
        >>=-eq-ok
          (map_err refused (validate_login_response verify_chain a expected config.chain now)) _
          h₂ in
      let same : r ≡ result = some_is r result (ok_injective h₃) in
      let (login, is_a, _, _) =
        validate_login_response_sound verify_chain a expected config.chain now r
          (map_err-ok refused _ r e₃) in
      subst (IsCompleted config origin now pending) same (record {
        code = code;
        policy = policy;
        exchanged = map_err-ok exchange_failed _ a e₁ ∙ ap ok (sym is_a);
        policy_is = map_err-ok bad_policy _ policy e₂;
        login =
            subst
              (λ (x : SessionAssertion).
                IsLogin verify_chain x expected config.chain now r.receipts)
              (sym is_a) login;
      })

  if_pending_sound :
      (config : RedirectConfig) (code origin : List ℕ) (now : ℕ) (storage : Storage)
      (item : Option StoredItem) (result : MagnaLoginResult)
      → (if_pending verify_chain exchange config code origin now storage item).0 ≡ ok (some result)
      → (pending : PendingLogin) × (item ≡ some (stored pending))
        × IsCompleted config origin now pending result
        × ((if_pending verify_chain exchange config code origin now storage item).1
            ≡ remove pending_key storage)
  if_pending_sound config code origin now storage none result h = absurd cc
  if_pending_sound config code origin now storage (some (unusable [])) result h = absurd cc
  if_pending_sound config code origin now storage (some (unusable (c ∷ cs))) result h = absurd cc
  if_pending_sound config code origin now storage (some (stored pending)) result h =
      (pending, refl, exchange_pending_sound config code origin now pending result h, refl)

  -- A login that completes is the one whose record was pending in the storage: the code was exchanged for
  -- an assertion that passes every check for that record's request, and the record is gone.
  pub complete_redirect_login_sound :
      (config : RedirectConfig) (code : Option (List ℕ)) (origin : List ℕ) (now : ℕ)
      (storage : Storage) (result : MagnaLoginResult)
      → (complete_redirect_login verify_chain exchange config code origin now storage).0
        ≡ ok (some result)
      → (pending : PendingLogin) × (lookup pending_key storage ≡ some (stored pending))
        × IsCompleted config origin now pending result
        × (lookup pending_key
              (complete_redirect_login verify_chain exchange config code origin now storage).1
            ≡ none)
  unfolding complete_redirect_login
  complete_redirect_login_sound config none origin now storage result h =
      absurd (none_is result (ok_injective h))
  complete_redirect_login_sound config (some []) origin now storage result h =
      absurd (none_is result (ok_injective h))
  complete_redirect_login_sound config (some (c ∷ cs)) origin now storage result h =
      let (pending, there, completed, left) =
        if_pending_sound config (c ∷ cs) origin now storage (lookup pending_key storage) result h in
      (
        pending,
        there,
        completed,
        ap (λ (s : Storage). lookup pending_key s) left ∙ lookup-remove pending_key storage,
      )

module _ (policy_hash : Policy → List ℕ)
    (verify_chain : SessionChainVerifierInput → Result ClientError (Unit {0}))
    (exchange : List ℕ → Result ℕ SessionAssertion) where
  -- The assertion of a login answers the request that the page left with.
  pub record Answers (request : RedirectRequest) (a : SessionAssertion) : Type 0 where
    pub request_id : a.request_id ≡ request.request_id
    pub session_challenge : a.session_challenge ≡ request.session_challenge
    pub policy_hash_is : a.policy_hash ≡ request.policy_hash

  login_with_redirect-stores :
      (config : RedirectConfig) (policy : Policy) (id_bytes challenge_bytes origin : List ℕ)
      (storage after : Storage) (request : RedirectRequest)
      → login_with_redirect policy_hash config policy id_bytes challenge_bytes origin storage
        ≡ ok (request, after)
      → lookup pending_key after ≡ some (stored (pending_of policy_hash request))
  unfolding login_with_redirect
  login_with_redirect-stores config policy id_bytes challenge_bytes origin storage after request h =
      let (normalized, _, k) = >>=-eq-ok (normalize_policy policy) _ h in
      let same = ok_injective k in
      let sent = redirect_request policy_hash config normalized id_bytes challenge_bytes origin in
      subst
        (λ (q : RedirectRequest × Storage).
          lookup pending_key q.1 ≡ some (stored (pending_of policy_hash q.0)))
        same (lookup-insert pending_key (stored (pending_of policy_hash sent)) storage)

  -- A login that completes on the storage that `loginWithRedirect` left answers the request that it sent,
  -- and leaves no record with which a second login could complete.
  pub complete_redirect_login-Answers :
      (config : RedirectConfig) (policy : Policy) (id_bytes challenge_bytes : List ℕ)
      (code : Option (List ℕ)) (origin : List ℕ) (now : ℕ) (storage after : Storage)
      (request : RedirectRequest) (result : MagnaLoginResult)
      → login_with_redirect policy_hash config policy id_bytes challenge_bytes origin storage
        ≡ ok (request, after)
      → (complete_redirect_login verify_chain exchange config code origin now after).0
        ≡ ok (some result)
      → Answers request result.assertion
        × (lookup pending_key
              (complete_redirect_login verify_chain exchange config code origin now after).1
            ≡ none)
  complete_redirect_login-Answers config policy id_bytes challenge_bytes code origin now storage
        after request result h k =
      let (pending, there, completed, gone) =
        complete_redirect_login_sound verify_chain exchange config code origin now after result k in
      let same : pending ≡ pending_of policy_hash request = stored_is _ _ (
        sym there
        ∙ login_with_redirect-stores config policy id_bytes challenge_bytes origin storage after
            request h) in
      (
        record {
          request_id = completed.login.request_id ∙ ap (λ (p : PendingLogin). p.request_id) same;
          session_challenge =
              completed.login.session_challenge
              ∙ ap (λ (p : PendingLogin). p.session_challenge) same;
          policy_hash_is =
              completed.login.policy_hash ∙ ap (λ (p : PendingLogin). p.policy_hash) same;
        },
        gone,
      )
