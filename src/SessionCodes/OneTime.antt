-- ===== src/SessionCodes/OneTime.antt =====
-- A session code is exchanged at most once, and only while it is alive.
use magna_monorepo.Base.{
  ℕ, ◌+◌, ◌≡◌, refl, ap, ◌∙◌, true, false, List, [], ◌∷◌, none, some, ltb, if◌then◌else◌,
  Bool-cases, inl, inr, All,
}
use magna_monorepo.Base.Texts.{text_eq, text_eq_refl, text_eq_iff}
use magna_monorepo.Core.Values.{Value}
use magna_monorepo.SessionCodes.{
  StoredSessionAssertion, SessionCodes, get_code, set_code, delete_code, create_session_code,
  alive_at, exchange_session_code, CodeCall, create, exchange, run_call, run_calls,
}

pub get_code-set_code :
    (code : List ℕ) (entry : StoredSessionAssertion) (codes : SessionCodes)
    → get_code code (set_code code entry codes) ≡ some entry
unfolding get_code set_code
get_code-set_code code entry [] = rw (text_eq_refl code) refl
get_code-set_code code entry ((key, old) ∷ codes) = elim (Bool-cases (text_eq key code)) [
  | inl same ↦ rw same (rw same refl)
  | inr other ↦ rw other (rw other (get_code-set_code code entry codes))
]

pub get_code-delete_code :
    (code : List ℕ) (codes : SessionCodes) → get_code code (delete_code code codes) ≡ none
unfolding get_code delete_code
get_code-delete_code code [] = refl
get_code-delete_code code ((key, old) ∷ codes) = elim (Bool-cases (text_eq key code)) [
  | inl same ↦ rw same (get_code-delete_code code codes)
  | inr other ↦ rw other (rw other (get_code-delete_code code codes))
]

-- Codes that the test tells apart.
apart : (a b key : List ℕ) → text_eq a b ≡ false → text_eq key a ≡ true → text_eq key b ≡ false
apart a b key h k = let same = (text_eq_iff key a).0 k in rw same h

pub get_code-delete_other :
    (code other : List ℕ) (codes : SessionCodes)
    → text_eq other code ≡ false
    → get_code code (delete_code other codes) ≡ get_code code codes
unfolding get_code delete_code
get_code-delete_other code other [] h = refl
get_code-delete_other code other ((key, old) ∷ codes) h = elim (Bool-cases (text_eq key other)) [
  | inl same ↦ rw (same, apart other code key h same) (get_code-delete_other code other codes h)
  | inr differs ↦ rw differs (
      ap (λ t. if text_eq key code then some old else t) (get_code-delete_other code other codes h))
]

pub get_code-set_other :
    (code other : List ℕ) (entry : StoredSessionAssertion) (codes : SessionCodes)
    → text_eq other code ≡ false
    → get_code code (set_code other entry codes) ≡ get_code code codes
unfolding get_code set_code
get_code-set_other code other entry [] h = rw h refl
get_code-set_other code other entry ((key, old) ∷ codes) h = elim (Bool-cases (text_eq key other)) [
  | inl same ↦ rw (same, apart other code key h same) refl
  | inr differs ↦ rw differs (
      ap (λ t. if text_eq key code then some old else t)
        (get_code-set_other code other entry codes h))
]

-- The call does not create this code again.
abbrev pub Spares : List ℕ → CodeCall → Type 0
Spares code (create c a now) = text_eq c code ≡ false
Spares code (exchange c now) = Unit {0}

run_calls-stays_gone :
    (code : List ℕ) (calls : List CodeCall) (codes : SessionCodes)
    → All (Spares code) calls
    → get_code code codes ≡ none
    → get_code code (run_calls calls codes) ≡ none
unfolding run_calls run_call create_session_code exchange_session_code
run_calls-stays_gone code [] codes h gone = gone
run_calls-stays_gone code (create c a now ∷ calls) codes (p, h) gone =
    run_calls-stays_gone code calls _ h (get_code-set_other code c _ codes p ∙ gone)
run_calls-stays_gone code (exchange c now ∷ calls) codes (p, h) gone =
    elim (Bool-cases (text_eq c code)) [
      | inl same ↦
          let is = (text_eq_iff c code).0 same in
          run_calls-stays_gone code calls _ h
            (ap (λ k. get_code code (delete_code k codes)) is ∙ get_code-delete_code code codes)
      | inr other ↦
          run_calls-stays_gone code calls _ h (get_code-delete_other code c codes other ∙ gone)
    ]

-- The call does not name this code.
abbrev pub Avoids : List ℕ → CodeCall → Type 0
Avoids code (create c a now) = text_eq c code ≡ false
Avoids code (exchange c now) = text_eq c code ≡ false

run_calls-kept :
    (code : List ℕ) (calls : List CodeCall) (codes : SessionCodes)
    → All (Avoids code) calls
    → get_code code (run_calls calls codes) ≡ get_code code codes
unfolding run_calls run_call create_session_code exchange_session_code
run_calls-kept code [] codes h = refl
run_calls-kept code (create c a now ∷ calls) codes (p, h) =
    run_calls-kept code calls _ h ∙ get_code-set_other code c _ codes p
run_calls-kept code (exchange c now ∷ calls) codes (p, h) =
    run_calls-kept code calls _ h ∙ get_code-delete_other code c codes p

-- Once a code has been exchanged, then whatever calls follow that do not create it again, a further
-- exchange returns nothing.
pub exchange_session_code-once :
    (code : List ℕ) (first later : ℕ) (calls : List CodeCall) (codes : SessionCodes)
    → All (Spares code) calls
    → (exchange_session_code code later
        (run_calls calls (exchange_session_code code first codes).1)).0
      ≡ none
unfolding exchange_session_code
exchange_session_code-once code first later calls codes h =
    ap (alive_at later)
      (run_calls-stays_gone code calls (delete_code code codes) h (get_code-delete_code code codes))

-- A code that was created and that no later call names is exchanged for its assertion until a minute
-- has passed, and for nothing after that.
pub exchange_session_code-create :
    (code : List ℕ) (assertion : Value) (created later : ℕ) (calls : List CodeCall)
    (codes : SessionCodes)
    → All (Avoids code) calls
    → (exchange_session_code code later
        (run_calls calls (create_session_code code assertion created codes))).0
      ≡ (if ltb (created + 60000) later then none else some assertion)
unfolding exchange_session_code create_session_code
exchange_session_code-create code assertion created later calls codes h = ap (alive_at later) (
    run_calls-kept code calls (create_session_code code assertion created codes) h
    ∙ get_code-set_code code _ codes)
