-- ===== src/Recovery/Preimages.antt =====
-- What the preimages of a recovery determine.
use Prim.Native.String.{String}
use magna_monorepo.Base.{
  ℕ, ◌≤◌, ◌≡◌, refl, sym, ap, ◌∙◌, subst, List, [], ◌∷◌, Option, none, some, ok, >>=-eq-ok, arith,
}
use magna_monorepo.Base.Numbers.{pos, negsuc}
use magna_monorepo.Recovery.{
  FieldLike, RecoveryIntentInput, RecoveryAuthorizationInput, as_field, as_non_zero_field, as_u64,
  as_eth_address, recovery_intent_fields, recovery_authorization_fields,
}

pub as_field_sound : (v : FieldLike) (l : String) (n : ℕ) → as_field v l ≡ ok n → v ≡ some (pos n)
unfolding as_field
as_field_sound none l n h = cc
as_field_sound (some (negsuc m)) l n h = cc
as_field_sound (some (pos m)) l n h =
    (let same : m ≡ n = ground arith in ap (λ k. some (pos k)) same)

pub as_non_zero_field_sound :
    (v : FieldLike) (l : String) (n : ℕ) → as_non_zero_field v l ≡ ok n → v ≡ some (pos n)
unfolding as_non_zero_field
as_non_zero_field_sound v l n h =
    let (m, e, h₁) = >>=-eq-ok (as_field v l) _ h in
    let same : m ≡ n = ground arith in as_field_sound v l n (e ∙ ap ok same)

pub as_u64_sound :
    (v : FieldLike) (l : String) (n : ℕ)
    → as_u64 v l ≡ ok n
    → (v ≡ some (pos n)) × (n ≤ 18446744073709551615)
unfolding as_u64
as_u64_sound v l n h =
    let (m, e, h₁) = >>=-eq-ok (as_field v l) _ h in
    let same : m ≡ n = ground arith in (as_field_sound v l n (e ∙ ap ok same), ground arith)

as_eth_address_sound : (v : FieldLike) (n : ℕ) → as_eth_address v ≡ ok n → v ≡ some (pos n)
unfolding as_eth_address
as_eth_address_sound v n h =
    let (m, e, h₁) = >>=-eq-ok (as_field v "recoveryPortalL1Address") _ h in
    let same : m ≡ n = ground arith in as_field_sound v "recoveryPortalL1Address" n (e ∙ ap ok same)

-- The input that a preimage of nine values came from.
abbrev pub intent_of : List ℕ → Option RecoveryIntentInput
intent_of (_ ∷ a ∷ b ∷ c ∷ d ∷ e ∷ f ∷ g ∷ h ∷ []) = some (record {
  ethereum_chain_id = some (pos a);
  recovery_portal_l1_address = some (pos b);
  aztec_protocol_version = some (pos c);
  aztec_chain_id = some (pos d);
  issuer_l2_address = some (pos e);
  destination = some (pos f);
  recovery_nonce = some (pos g);
  message_secret_hash = some (pos h);
})
intent_of _ = none

recovery_intent_fields_sound :
    (input : RecoveryIntentInput) (l : List ℕ)
    → recovery_intent_fields input ≡ ok l
    → intent_of l ≡ some input
unfolding recovery_intent_fields
recovery_intent_fields_sound input l h =
    let (a, ea, h) = >>=-eq-ok (as_non_zero_field input.ethereum_chain_id "ethereumChainId") _ h in
    let (b, eb, h) = >>=-eq-ok (as_eth_address input.recovery_portal_l1_address) _ h in
    let (c, ec, h) =
      >>=-eq-ok (as_non_zero_field input.aztec_protocol_version "aztecProtocolVersion") _ h in
    let (d, ed, h) = >>=-eq-ok (as_non_zero_field input.aztec_chain_id "aztecChainId") _ h in
    let (e, ee, h) = >>=-eq-ok (as_non_zero_field input.issuer_l2_address "issuerL2Address") _ h in
    let (f, ef, h) = >>=-eq-ok (as_non_zero_field input.destination "destination") _ h in
    let (g, eg, h) = >>=-eq-ok (as_non_zero_field input.recovery_nonce "recoveryNonce") _ h in
    let (s, es, h) =
      >>=-eq-ok (as_non_zero_field input.message_secret_hash "messageSecretHash") _ h in
    let made : 3 ∷ a ∷ b ∷ c ∷ d ∷ e ∷ f ∷ g ∷ s ∷ [] ≡ l = ground arith in
    subst (λ t. intent_of t ≡ some input) made
      (rw
        (
          sym (as_non_zero_field_sound _ "ethereumChainId" a ea),
          sym (as_eth_address_sound _ b eb),
          sym (as_non_zero_field_sound _ "aztecProtocolVersion" c ec),
          sym (as_non_zero_field_sound _ "aztecChainId" d ed),
          sym (as_non_zero_field_sound _ "issuerL2Address" e ee),
          sym (as_non_zero_field_sound _ "destination" f ef),
          sym (as_non_zero_field_sound _ "recoveryNonce" g eg),
          sym (as_non_zero_field_sound _ "messageSecretHash" s es),
        )
        refl)

some-injective {ℓ} : {A : Type ℓ} (a b : A) → some a ≡ some b → a ≡ b
some-injective a b h = ground arith

-- Two inputs whose recovery intents hash the same values are the same input, so that the intent binds
-- both chains, the portal, the issuer, the destination, the nonce and the secret.
pub recovery_intent_fields-injective :
    (a b : RecoveryIntentInput) (fields : List ℕ)
    → recovery_intent_fields a ≡ ok fields
    → recovery_intent_fields b ≡ ok fields
    → a ≡ b
recovery_intent_fields-injective a b fields h k =
    some-injective a b
      (sym (recovery_intent_fields_sound a fields h) ∙ recovery_intent_fields_sound b fields k)

abbrev pub authorization_of : List ℕ → Option RecoveryAuthorizationInput
authorization_of (_ ∷ a ∷ b ∷ c ∷ d ∷ []) = some (record {
  recovery_intent = some (pos a);
  root_commitment = some (pos b);
  claims_hash = some (pos c);
  credential_valid_until = some (pos d);
})
authorization_of _ = none

abbrev pub pos_of : FieldLike → ℕ
pos_of (some (pos n)) = n
pos_of _ = 0

recovery_authorization_fields_sound :
    (input : RecoveryAuthorizationInput) (l : List ℕ)
    → recovery_authorization_fields input ≡ ok l
    → authorization_of l ≡ some input
unfolding recovery_authorization_fields
recovery_authorization_fields_sound input l h =
    let (a, ea, h) = >>=-eq-ok (as_non_zero_field input.recovery_intent "recoveryIntent") _ h in
    let (b, eb, h) = >>=-eq-ok (as_non_zero_field input.root_commitment "rootCommitment") _ h in
    let (c, ec, h) = >>=-eq-ok (as_non_zero_field input.claims_hash "claimsHash") _ h in
    let (u, eu, h) = >>=-eq-ok (as_u64 input.credential_valid_until "credentialValidUntil") _ h in
    let (d, ed, h) = >>=-eq-ok (as_non_zero_field (some (pos u)) "credentialValidUntil") _ h in
    let same : u ≡ d = ap pos_of (as_non_zero_field_sound _ "credentialValidUntil" d ed) in
    let made : 3 ∷ a ∷ b ∷ c ∷ d ∷ [] ≡ l = ground arith in
    subst (λ t. authorization_of t ≡ some input) made
      (rw
        (
          sym (as_non_zero_field_sound _ "recoveryIntent" a ea),
          sym (as_non_zero_field_sound _ "rootCommitment" b eb),
          sym (as_non_zero_field_sound _ "claimsHash" c ec),
          sym ((as_u64_sound _ "credentialValidUntil" u eu).0 ∙ ap (λ n. some (pos n)) same),
        )
        refl)

-- Two inputs whose recovery authorizations hash the same values are the same input: the intent, the
-- root, the claims and the end of validity.
pub recovery_authorization_fields-injective :
    (a b : RecoveryAuthorizationInput) (fields : List ℕ)
    → recovery_authorization_fields a ≡ ok fields
    → recovery_authorization_fields b ≡ ok fields
    → a ≡ b
recovery_authorization_fields-injective a b fields h k = some-injective a b (
    sym (recovery_authorization_fields_sound a fields h)
    ∙ recovery_authorization_fields_sound b fields k)
