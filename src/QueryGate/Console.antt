-- ===== src/QueryGate/Console.antt =====
-- The state of QueryConsoleClient.tsx and what it sends.
use nixway_core.Prelude.{ℕ, Bool, false, List, [], ◌∷◌, ◌++◌, Option, none, some}

-- the editor's text as code points, and the switch
pub record Console : Type 0 where
  pub sql : List ℕ
  pub write_mode : Bool

-- the codes of `SELECT`, ` * FROM "`, `"."` and `"\nLIMIT 100;`
abbrev pub select_word : List ℕ
select_word = 83 ∷ 69 ∷ 76 ∷ 69 ∷ 67 ∷ 84 ∷ []

abbrev pub star_from : List ℕ
star_from = 42 ∷ 32 ∷ 70 ∷ 82 ∷ 79 ∷ 77 ∷ 32 ∷ 34 ∷ []

abbrev pub quoted_dot : List ℕ
quoted_dot = 34 ∷ 46 ∷ 34 ∷ []

abbrev pub limit_line : List ℕ
limit_line = 34 ∷ 10 ∷ 76 ∷ 73 ∷ 77 ∷ 73 ∷ 84 ∷ 32 ∷ 49 ∷ 48 ∷ 48 ∷ 59 ∷ []

unfoldable pub load_table : List ℕ → List ℕ → Console
load_table schema name = record {
  sql = select_word ++ 32 ∷ star_from ++ schema ++ quoted_dot ++ name ++ limit_line;
  write_mode = false;
}

unfoldable pub load_history : List ℕ → Bool → Console
load_history text mode = record { sql = text; write_mode = mode }

-- what `execute` sends, with `trim` of a string; `none` sends nothing
module _ (trim : List ℕ → List ℕ) where
  abbrev pub unless_empty : List ℕ → Bool → Option Console
  unless_empty [] mode = none
  unless_empty (c ∷ s) mode = some (record { sql = c ∷ s; write_mode = mode })

  unfoldable pub execute : Console → Option Console
  execute c = unless_empty (trim c.sql) c.write_mode
