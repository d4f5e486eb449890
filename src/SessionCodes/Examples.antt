-- ===== src/SessionCodes/Examples.antt =====
-- The theorems on session codes at two codes.
use magna_monorepo.Base.{List, ◌+◌, ◌≡◌, refl, ltb, [], ◌∷◌, none, some, if◌then◌else◌}
use magna_monorepo.Base.Texts.{codes}
use magna_monorepo.Core.Values.{null}
use magna_monorepo.SessionCodes.{
  create_session_code, exchange_session_code, create, exchange, run_calls, CodeCall, get_code,
}
use magna_monorepo.SessionCodes.Refinement.{map_answers, table_answers, map_answers-refines}
use magna_monorepo.SessionCodes.OneTime.{exchange_session_code-once, exchange_session_code-create}

exchange_session_code-once_example :
    (exchange_session_code (codes "a") 30 (
      run_calls
        (create (codes "b") null 20 ∷ [])
        (exchange_session_code (codes "a") 10 (create_session_code (codes "a") null 0 [])).1)).0
    ≡ none
exchange_session_code-once_example =
    exchange_session_code-once (codes "a") 10 30 (create (codes "b") null 20 ∷ [])
      (create_session_code (codes "a") null 0 []) (refl, tt)

exchange_session_code-create_example :
    (exchange_session_code
      (codes "a")
      30
      (run_calls (exchange (codes "b") 20 ∷ []) (create_session_code (codes "a") null 0 []))).0
    ≡ (if ltb (0 + 60000) 30 then none else some null)
exchange_session_code-create_example =
    exchange_session_code-create (codes "a") null 0 30 (exchange (codes "b") 20 ∷ []) [] (refl, tt)

abbrev some_calls : List CodeCall
some_calls = create (codes "a") null 0 ∷ exchange (codes "a") 10 ∷ exchange (codes "a") 20 ∷ []

map_answers-refines_example : map_answers some_calls [] ≡ table_answers some_calls (λ _. none)
unfolding get_code
map_answers-refines_example = map_answers-refines some_calls [] (λ _. none) (λ _. refl)
