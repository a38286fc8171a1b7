-- ===== src/QueryGate/Api.antt =====
-- The validation of ExecuteQuery in internal/database/query.go, for a database that is found and runs.
use nixway_core.Prelude.{
  ℕ, String, Bool, not, ◌&&◌, ◌||◌, List, [], ◌∷◌, Option, none, some, str_eq, any, if◌then◌else◌,
}
use nixway_core.QueryGate.Keyword.{trim_space, first_word}

abbrev pub ddl_keywords : List String
ddl_keywords = "DROP" ∷ "ALTER" ∷ "TRUNCATE" ∷ "CREATE" ∷ "GRANT" ∷ "REVOKE" ∷ []

abbrev pub read_keywords : List String
read_keywords = "SELECT" ∷ "SHOW" ∷ "EXPLAIN" ∷ "WITH" ∷ "DESCRIBE" ∷ "DESC" ∷ []

abbrev pub is_keyword : List String → String → Bool
is_keyword words kw = any (λ w. str_eq w kw) words

abbrev pub database_type : String → String
database_type slug =
    if str_eq slug "postgres" || str_eq slug "postgresql"
    then "postgresql"
    else if str_eq slug "mysql" || str_eq slug "mariadb"
    then "mysql"
    else if str_eq slug "mongodb" || str_eq slug "mongo"
    then "mongodb"
    else slug

abbrev pub is_sql_db : String → Bool
is_sql_db type = str_eq type "postgresql" || str_eq type "mysql"

-- the tests of the keyword, which is in upper case
abbrev pub keyword_error : Bool → String → Option String
keyword_error write_mode kw =
    if is_keyword ddl_keywords kw
    then some "DDL is not permitted (DROP/ALTER/TRUNCATE/CREATE/GRANT/REVOKE)"
    else if not write_mode && not (is_keyword read_keywords kw)
    then some "write_mode is off; query must start with SELECT/SHOW/EXPLAIN/WITH/DESCRIBE"
    else none

-- The operation stands in lower case and without blanks around it.
pub record QueryRequest : Type 0 where
  pub query : List ℕ
  pub write_mode : Bool
  pub operation : String

abbrev pub is_user_query : String → Bool
is_user_query op = str_eq op "" || str_eq op "select"

-- the error of a query of the user
abbrev pub checked_query : List ℕ → Bool → String → Option String
checked_query [] write_mode kw = some "query is required"
checked_query (c ∷ s) write_mode kw = keyword_error write_mode kw

module _ (upper : List ℕ → String) where
  -- The error of the validation, if any. The message of a query that is no read leaves its keyword
  -- out.
  unfoldable pub query_error : String → QueryRequest → Option String
  unfolding first_word
  query_error slug req =
      let error =
        checked_query (trim_space req.query) req.write_mode (upper (first_word req.query)) in
      if is_sql_db (database_type slug) && is_user_query req.operation then error else none
