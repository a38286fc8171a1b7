-- ===== src/Witnesses/Queries.antt =====
-- The tests of a query at concrete texts.
use nixway_core.Prelude.{
  ℕ, String, true, false, List, [], ◌∷◌, none, ◌≡◌, refl, ◌==◌, if◌then◌else◌,
}
use nixway_core.QueryGate.Api.{QueryRequest, keyword_error, query_error}
use nixway_core.QueryGate.Agent.{queries, run_word, run_query}
use nixway_core.QueryGate.Console.{load_table}
use nixway_core.QueryGate.Words.{
  query_of, is_refused, gates-query, load_table-passes, query_error-run_query,
}

-- an upper case of two words, by their first letter
abbrev upper_word : List ℕ → String
upper_word [] = ""
upper_word (c ∷ s) = if c == 83 then "SELECT" else "UPDATE"

-- `UP;DROP`
abbrev two_statements : List ℕ
two_statements = query_of 85 (80 ∷ []) 59 (68 ∷ 82 ∷ 79 ∷ 80 ∷ [])

gates-query_example :
    (query_error upper_word "postgres"
        (record { query = two_statements; write_mode = true; operation = "" })
      ≡ keyword_error true "UPDATE")
    × (run_query upper_word true two_statements ≡ run_word true "UPDATE" two_statements)
gates-query_example =
    gates-query upper_word "postgres" "" true 85 (80 ∷ []) 59 (68 ∷ 82 ∷ 79 ∷ 80 ∷ [])
      ((refl, refl, refl), ((refl, refl, refl), tt)) refl refl

load_table-passes_example :
    let c = load_table (112 ∷ []) (116 ∷ []) in
    (query_error upper_word "mysql"
        (record { query = c.sql; write_mode = c.write_mode; operation = "" })
      ≡ none)
    × (run_query upper_word c.write_mode c.sql ≡ queries c.sql)
load_table-passes_example = load_table-passes upper_word "mysql" (112 ∷ []) (116 ∷ []) refl refl

abbrev select_one : QueryRequest
select_one = record { query = 83 ∷ 32 ∷ 49 ∷ []; write_mode = false; operation = "select" }

query_error-run_query_example : is_refused (run_query upper_word false (83 ∷ 32 ∷ 49 ∷ [])) ≡ false
unfolding query_error
query_error-run_query_example = query_error-run_query upper_word "mysql" select_one refl refl
