-- ===== src/Models/Tooling.antt =====
-- The SQL terminal of apps/web-v2/lib/types.ts.
use nixway_core.Prelude.{String, Bool, List, Option}
use nixway_core.Models.{Number}

pub record SchemaList : Type 0 where
  pub schemas : List String

pub record TableInfo : Type 0 where
  pub name : String
  pub row_count : Number

pub record TableList : Type 0 where
  pub tables : List TableInfo

pub record QueryColumn : Type 0 where
  pub name : String
  pub type_name : Option String

pub record QueryRow : Type 0 where
  pub values : List String
  pub nulls : List Bool

pub record QueryResult : Type 0 where
  pub success : Bool
  pub error : Option String
  pub execution_time_ms : Number
  pub columns : Option (List QueryColumn)
  pub rows : Option (List QueryRow)
  pub affected_rows : Option Number
  pub raw_text : Option String
  pub query_history_id : String

pub record RowPage : Type 0 where
  pub columns : List QueryColumn
  pub rows : List QueryRow
  pub page : Number
  pub limit : Number
  pub total : Number

pub record QueryHistoryEntry : Type 0 where
  pub id : String
  pub user_id : String
  pub database_id : String
  pub query_text : String
  pub write_mode : Bool
  pub execution_time_ms : Option Number
  pub row_count : Option Number
  pub error : Option String
  pub created_at : String
