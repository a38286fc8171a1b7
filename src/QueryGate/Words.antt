-- ===== src/QueryGate/Words.antt =====
-- What the tests make of a query that starts with a plain word.
use nixway_core.Prelude.{
  ℕ, String, Bool, true, false, not, ◌&&◌, List, [], ◌∷◌, ◌++◌, none, some, ◌≡◌, refl, sym, ap, ◌∙◌,
  arith, All, if◌then◌else◌,
}
use mathlib.Core.Path.{ap₂}
use nixway_core.QueryGate.Keyword.{
  is_space, is_cut, is_separator, trim_left, trim_right, trim_before, trim_space, take_until,
  first_field, first_word,
}
use nixway_core.QueryGate.Api.{
  is_keyword, database_type, is_sql_db, is_user_query, keyword_error, QueryRequest, query_error,
  checked_query,
}
use nixway_core.QueryGate.Agent.{
  Run, refuses, queries, executes, sql_ddl_keywords, sql_read_keywords, first_keyword, run_word,
  run_query,
}
use nixway_core.QueryGate.Console.{load_table, select_word, star_from, quoted_dot, limit_line}

-- a character of a plain word
abbrev pub IsPlain : ℕ → Type 0
IsPlain c = (is_space c ≡ false) × (is_cut c ≡ false) × (is_separator c ≡ false)

trim_left-kept : (p : ℕ → Bool) (c : ℕ) (s : List ℕ) → p c ≡ false → trim_left p (c ∷ s) ≡ c ∷ s
trim_left-kept p c s h = rw h refl

trim_before-kept : (c : ℕ) (s : List ℕ) → trim_before false c s ≡ c ∷ s
trim_before-kept c [] = refl
trim_before-kept c (d ∷ s) = refl

trim_right-word :
    (w t : List ℕ) → All IsPlain w → trim_right is_space (w ++ t) ≡ w ++ trim_right is_space t
trim_right-word [] t h = refl
trim_right-word (c ∷ w) t ((space, cut, sep), h) =
    ap (λ b. trim_before b c (trim_right is_space (w ++ t))) space
    ∙ trim_before-kept c (trim_right is_space (w ++ t))
    ∙ ap (λ s. c ∷ s) (trim_right-word w t h)

take_until-word :
    (w t : List ℕ)
    → All IsPlain w
    → take_until is_separator (w ++ t) ≡ w ++ take_until is_separator t
take_until-word [] t h = refl
take_until-word (c ∷ w) t ((space, cut, sep), h) = rw (sep, take_until-word w t h) refl

take_until-trimmed :
    (x : ℕ) (s : List ℕ) (b : Bool)
    → is_separator x ≡ true
    → take_until is_separator (trim_before b x s) ≡ []
take_until-trimmed x [] true h = refl
take_until-trimmed x [] false h = rw h refl
take_until-trimmed x (d ∷ s) b h = rw h refl

-- a query: a plain word, a separator and anything after it
abbrev pub query_of : ℕ → List ℕ → ℕ → List ℕ → List ℕ
query_of c w x rest = c ∷ w ++ x ∷ rest

trim_space-query :
    (c : ℕ) (w : List ℕ) (x : ℕ) (rest : List ℕ)
    → All IsPlain (c ∷ w)
    → trim_space (query_of c w x rest) ≡ c ∷ w ++ trim_right is_space (x ∷ rest)
trim_space-query c w x rest h =
    ap (trim_right is_space) (trim_left-kept is_space c (w ++ x ∷ rest) h.0.0)
    ∙ trim_right-word (c ∷ w) (x ∷ rest) h

append_empty : (w : List ℕ) → w ++ [] ≡ w
append_empty [] = refl
append_empty (c ∷ w) = ap (λ s. c ∷ s) (append_empty w)

first_field-query :
    (c : ℕ) (w : List ℕ) (x : ℕ) (rest : List ℕ)
    → All IsPlain (c ∷ w)
    → is_separator x ≡ true
    → first_field (trim_left is_cut (trim_space (query_of c w x rest))) ≡ c ∷ w
first_field-query c w x rest h sep =
    let t = trim_right is_space (x ∷ rest) in
    ap (λ q. first_field (trim_left is_cut q)) (trim_space-query c w x rest h)
    ∙ ap first_field (trim_left-kept is_cut c (w ++ t) h.0.1)
    ∙ ap (take_until is_separator) (trim_left-kept is_separator c (w ++ t) h.0.2)
    ∙ take_until-word (c ∷ w) t h
    ∙ ap (λ s. c ∷ w ++ s) (take_until-trimmed x (trim_right is_space rest) (is_space x) sep)
    ∙ append_empty (c ∷ w)

abbrev pub is_refused : Run → Bool
is_refused (refuses _) = true
is_refused _ = false

-- the two lists of tests, by their conditions
gates_agree :
    (write_mode ddl read : Bool) (query : List ℕ) (a b c d : String)
    → (if ddl then some a else if not write_mode && not read then some b else none) ≡ none
    → is_refused (
        if ddl
        then refuses c
        else if not write_mode && not read
        then refuses d
        else if write_mode && not read
        then executes query
        else queries query)
      ≡ false
gates_agree write_mode true read query a b c d h = ground arith
gates_agree true false true query a b c d h = refl
gates_agree true false false query a b c d h = refl
gates_agree false false true query a b c d h = refl
gates_agree false false false query a b c d h = ground arith

keyword_error-run_word :
    (write_mode : Bool) (kw : String) (query : List ℕ)
    → keyword_error write_mode kw ≡ none
    → is_refused (run_word write_mode kw query) ≡ false
keyword_error-run_word write_mode kw query h =
    gates_agree write_mode (is_keyword sql_ddl_keywords kw) (is_keyword sql_read_keywords kw) query
      _ _ _ _ h

checked_query-none :
    (s : List ℕ) (write_mode : Bool) (kw : String)
    → checked_query s write_mode kw ≡ none
    → keyword_error write_mode kw ≡ none
checked_query-none [] write_mode kw h = ground arith
checked_query-none (c ∷ s) write_mode kw h = h

module _ (upper : List ℕ → String) where
  query_error-query :
      (slug op : String) (write_mode : Bool) (c : ℕ) (w : List ℕ) (x : ℕ) (rest : List ℕ)
      → All IsPlain (c ∷ w)
      → is_separator x ≡ true
      → (is_sql_db (database_type slug) && is_user_query op) ≡ true
      → query_error upper slug
          (record { query = query_of c w x rest; write_mode = write_mode; operation = op })
        ≡ keyword_error write_mode (upper (c ∷ w))
  unfolding query_error first_word
  query_error-query slug op write_mode c w x rest h sep sql = rw sql (
      ap₂ (λ s kw. checked_query s write_mode (upper kw)) (trim_space-query c w x rest h)
        (first_field-query c w x rest h sep))

  -- For a database of PostgreSQL or MySQL, and a query of the user that starts with a plain word and a
  -- separator, both the API and the agent decide by that word in upper case alone. Whatever follows,
  -- the API's error is that of the word, and the agent refuses or runs the whole query by the word.
  pub gates-query :
      (slug op : String) (write_mode : Bool) (c : ℕ) (w : List ℕ) (x : ℕ) (rest : List ℕ)
      → All IsPlain (c ∷ w)
      → is_separator x ≡ true
      → (is_sql_db (database_type slug) && is_user_query op) ≡ true
      → (query_error upper slug
            (record { query = query_of c w x rest; write_mode = write_mode; operation = op })
          ≡ keyword_error write_mode (upper (c ∷ w)))
        × (run_query upper write_mode (query_of c w x rest)
            ≡ run_word write_mode (upper (c ∷ w)) (query_of c w x rest))
  unfolding run_query first_keyword
  gates-query slug op write_mode c w x rest h sep sql = (
    query_error-query slug op write_mode c w x rest h sep sql,
    ap (λ kw. run_word write_mode (upper kw) (query_of c w x rest))
        (first_field-query c w x rest h sep),
  )

  -- The statement that the console loads for a table passes both tests with the write mode off, for
  -- every schema and every name: the agent runs it as a query.
  pub load_table-passes :
      (slug : String) (schema name : List ℕ)
      → is_sql_db (database_type slug) ≡ true
      → upper select_word ≡ "SELECT"
      → let c = load_table schema name in
        (query_error upper slug
            (record { query = c.sql; write_mode = c.write_mode; operation = "" })
          ≡ none)
        × (run_query upper c.write_mode c.sql ≡ queries c.sql)
  unfolding load_table
  load_table-passes slug schema name sql up =
      let rest = star_from ++ schema ++ quoted_dot ++ name ++ limit_line in
      let (a, b) =
        gates-query slug "" false 83 (69 ∷ 76 ∷ 69 ∷ 67 ∷ 84 ∷ []) 32 rest
          (
            (refl, refl, refl),
            (
              (refl, refl, refl),
              (
                (refl, refl, refl),
                ((refl, refl, refl), ((refl, refl, refl), ((refl, refl, refl), tt))),
              ),
            ),
          )
          refl (rw sql refl) in
      (
        a ∙ ap (keyword_error false) up,
        b ∙ ap (λ kw. run_word false kw (load_table schema name).sql) up,
      )

  -- For a database of PostgreSQL or MySQL, the agent refuses no query of the user that the API lets
  -- pass.
  pub query_error-run_query :
      (slug : String) (req : QueryRequest)
      → (is_sql_db (database_type slug) && is_user_query req.operation) ≡ true
      → query_error upper slug req ≡ none
      → is_refused (run_query upper req.write_mode req.query) ≡ false
  unfolding query_error run_query first_word first_keyword
  query_error-run_query slug req sql passed =
      keyword_error-run_word req.write_mode (upper (first_word req.query)) req.query (
        checked_query-none (trim_space req.query) req.write_mode (upper (first_word req.query)) (
          ap
            (λ b.
              if b
              then checked_query (trim_space req.query) req.write_mode
                  (upper (first_word req.query))
              else none)
            (sym sql)
          ∙ passed))
