-- ===== src/SessionCodes/Refinement.antt =====
-- The map of session codes against a table with no order: each code has an entry or none.
use magna_monorepo.Base.{
  ℕ, ◌+◌, ◌≡◌, refl, ap, ◌∙◌, subst, List, [], ◌∷◌, Option, none, some, if◌then◌else◌, Bool-cases,
  inl, inr,
}
use magna_monorepo.Base.Texts.{text_eq, text_eq_iff}
use magna_monorepo.Core.Values.{Value}
use magna_monorepo.SessionCodes.{
  StoredSessionAssertion, SessionCodes, get_code, set_code, delete_code, create_session_code,
  alive_at, exchange_session_code, CodeCall, create, exchange, run_call,
}
use magna_monorepo.SessionCodes.OneTime.{
  get_code-set_code, get_code-delete_code, get_code-delete_other, get_code-set_other,
}

-- The table that a client may think of.
abbrev pub CodeTable : Type 0
CodeTable = List ℕ → Option StoredSessionAssertion

abbrev pub with_entry : List ℕ → Option StoredSessionAssertion → CodeTable → CodeTable
with_entry code entry table other = if text_eq code other then entry else table other

-- What the calls return, one after the other: an exchange gives back the assertion that is stored and
-- alive, and takes the entry away.
abbrev pub table_answers : List CodeCall → CodeTable → List (Option Value)
table_answers [] table = []
table_answers (create code assertion now ∷ calls) table =
    none
    ∷ table_answers calls (
        with_entry code (some (record { assertion = assertion; expires_at_ms = now + 60000 }))
          table)
table_answers (exchange code now ∷ calls) table =
    alive_at now (table code) ∷ table_answers calls (with_entry code none table)

-- The same of the map: a created code returns no assertion.
abbrev pub call_answer : CodeCall → SessionCodes → Option Value
call_answer (create code assertion now) codes = none
call_answer (exchange code now) codes = (exchange_session_code code now codes).0

abbrev pub map_answers : List CodeCall → SessionCodes → List (Option Value)
map_answers [] codes = []
map_answers (c ∷ calls) codes = call_answer c codes ∷ map_answers calls (run_call c codes)

-- The map holds what the table does.
abbrev pub Represents : SessionCodes → CodeTable → Type 0
Represents codes table = (code : List ℕ) → get_code code codes ≡ table code

set_code-Represents :
    (code : List ℕ) (entry : StoredSessionAssertion) (codes : SessionCodes) (table : CodeTable)
    → Represents codes table
    → Represents (set_code code entry codes) (with_entry code (some entry) table)
set_code-Represents code entry codes table h other = elim (Bool-cases (text_eq code other)) [
  | inl same ↦
      let is : code ≡ other = (text_eq_iff code other).0 same in
      rw same (
        subst (λ (k : List ℕ). get_code k (set_code code entry codes) ≡ some entry) is
          (get_code-set_code code entry codes))
  | inr differs ↦ rw differs (get_code-set_other other code entry codes differs ∙ h other)
]

delete_code-Represents :
    (code : List ℕ) (codes : SessionCodes) (table : CodeTable)
    → Represents codes table
    → Represents (delete_code code codes) (with_entry code none table)
delete_code-Represents code codes table h other = elim (Bool-cases (text_eq code other)) [
  | inl same ↦
      let is : code ≡ other = (text_eq_iff code other).0 same in
      rw same (
        subst (λ (k : List ℕ). get_code k (delete_code code codes) ≡ none) is
          (get_code-delete_code code codes))
  | inr differs ↦ rw differs (get_code-delete_other other code codes differs ∙ h other)
]

-- A map that holds what a table does gives the same answers to every sequence of calls as the table,
-- which gives an assertion to an exchange of a code that has an entry no older than a minute, and then
-- forgets the entry.
pub map_answers-refines :
    (calls : List CodeCall) (codes : SessionCodes) (table : CodeTable)
    → Represents codes table
    → map_answers calls codes ≡ table_answers calls table
unfolding run_call create_session_code exchange_session_code
map_answers-refines [] codes table h = refl
map_answers-refines (create code assertion now ∷ calls) codes table h =
    ap (λ t. none ∷ t) (map_answers-refines calls _ _ (set_code-Represents code _ codes table h))
map_answers-refines (exchange code now ∷ calls) codes table h =
    let rest =
      map_answers-refines calls (delete_code code codes) (with_entry code none table)
        (delete_code-Represents code codes table h) in
    rw (h code) (ap (λ t. alive_at now (table code) ∷ t) rest)
