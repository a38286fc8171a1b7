-- ===== src/QueryGate/Agent.antt =====
-- The tests of runSQLQuery in apps/agent/db_query.go on a query of the user.
use nixway_core.Prelude.{ℕ, String, Bool, not, ◌&&◌, List, [], ◌∷◌, if◌then◌else◌}
use nixway_core.QueryGate.Keyword.{is_cut, trim_left, trim_space, first_field}
use nixway_core.QueryGate.Api.{is_keyword}

abbrev pub sql_ddl_keywords : List String
sql_ddl_keywords = "DROP" ∷ "ALTER" ∷ "TRUNCATE" ∷ "CREATE" ∷ "GRANT" ∷ "REVOKE" ∷ []

abbrev pub sql_read_keywords : List String
sql_read_keywords = "SELECT" ∷ "SHOW" ∷ "EXPLAIN" ∷ "WITH" ∷ "DESCRIBE" ∷ "DESC" ∷ []

-- `firstKeyword`, before the upper case
unfoldable pub first_keyword : List ℕ → List ℕ
first_keyword query = first_field (trim_left is_cut (trim_space query))

-- how the agent runs a query: with Exec or with Query
pub data Run : Type 0 where
  refuses : String → Run
  executes queries : List ℕ → Run

-- The tests of the keyword. The message of a query that is no read leaves its keyword out.
abbrev pub run_word : Bool → String → List ℕ → Run
run_word write_mode kw query =
    if is_keyword sql_ddl_keywords kw
    then refuses "DDL statements are not permitted (DROP/ALTER/TRUNCATE/CREATE/GRANT/REVOKE)"
    else if not write_mode && not (is_keyword sql_read_keywords kw)
    then refuses
        "write_mode is off; only read queries (SELECT/SHOW/EXPLAIN/WITH/DESCRIBE) are permitted"
    else if write_mode && not (is_keyword sql_read_keywords kw)
    then executes query
    else queries query

module _ (upper : List ℕ → String) where
  unfoldable pub run_query : Bool → List ℕ → Run
  unfolding first_keyword
  run_query write_mode query = run_word write_mode (upper (first_keyword query)) query
