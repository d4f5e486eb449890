-- ===== src/SessionCodes.antt =====
-- apps/magna-verification-api/src/session-code-store.ts: the one-time codes of a redirect login.
mod Examples
pub mod OneTime
pub mod Refinement
use magna_monorepo.Base.{
  ℕ, ◌+◌, Bool, true, false, List, [], ◌∷◌, Option, none, some, ltb, if◌then◌else◌,
}
use magna_monorepo.Base.Texts.{text_eq}
use magna_monorepo.Core.Values.{Value}

pub record StoredSessionAssertion : Type 0 where
  pub assertion : Value
  pub expires_at_ms : ℕ

abbrev pub ttl_ms : ℕ
ttl_ms = 60000

-- The module's `Map`, its entries in the order of insertion.
abbrev pub SessionCodes : Type 0
SessionCodes = List (List ℕ × StoredSessionAssertion)

-- `codes.get(code)`
unfoldable pub get_code : List ℕ → SessionCodes → Option StoredSessionAssertion
get_code code [] = none
get_code code ((key, entry) ∷ codes) = if text_eq key code then some entry else get_code code codes

-- `codes.set(code, entry)`: a key that is there keeps its place.
unfoldable pub set_code : List ℕ → StoredSessionAssertion → SessionCodes → SessionCodes
set_code code entry [] = (code, entry) ∷ []
set_code code entry ((key, old) ∷ codes) =
    let rest = set_code code entry codes in
    if text_eq key code then (key, entry) ∷ codes else (key, old) ∷ rest

-- `codes.delete(code)`
unfoldable pub delete_code : List ℕ → SessionCodes → SessionCodes
delete_code code [] = []
delete_code code ((key, old) ∷ codes) =
    let rest = delete_code code codes in if text_eq key code then rest else (key, old) ∷ rest

-- `code` is the random UUID that the call draws, and `now` is `Date.now()`.
unfoldable pub create_session_code : List ℕ → Value → ℕ → SessionCodes → SessionCodes
unfolding set_code
create_session_code code assertion now codes =
    set_code code (record { assertion = assertion; expires_at_ms = now + ttl_ms }) codes

-- `!entry || entry.expiresAtMs < Date.now()` returns null.
abbrev pub alive_at : ℕ → Option StoredSessionAssertion → Option Value
alive_at now none = none
alive_at now (some entry) = if ltb entry.expires_at_ms now then none else some entry.assertion

-- What the call returns, and the map it leaves.
unfoldable pub exchange_session_code : List ℕ → ℕ → SessionCodes → Option Value × SessionCodes
unfolding get_code delete_code
exchange_session_code code now codes = (alive_at now (get_code code codes), delete_code code codes)

unfoldable pub clear_session_codes_for_test : SessionCodes → SessionCodes
clear_session_codes_for_test codes = []

-- The calls that the API's routes make, in any order.
pub data CodeCall : Type 0 where
  create : List ℕ → Value → ℕ → CodeCall
  exchange : List ℕ → ℕ → CodeCall

unfoldable pub run_call : CodeCall → SessionCodes → SessionCodes
unfolding create_session_code exchange_session_code
run_call (create code assertion now) codes = create_session_code code assertion now codes
run_call (exchange code now) codes = (exchange_session_code code now codes).1

unfoldable pub run_calls : List CodeCall → SessionCodes → SessionCodes
unfolding run_call
run_calls [] codes = codes
run_calls (c ∷ calls) codes = run_calls calls (run_call c codes)
