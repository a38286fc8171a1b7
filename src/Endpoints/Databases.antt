-- ===== src/Endpoints/Databases.antt =====
-- Calls of templatesApi, databasesApi and dbToolingApi, apps/web-v2/lib/api.ts lines 659 to 798. An input object that
-- a caller passes stands as the members of its JSON.
use nixway_core.Prelude.{ℕ, String, [], ◌∷◌, ◌++◌, Option, none, some, ◌<>◌}
use nixway_core.Json.{obj, Members}
use nixway_core.Http.Types.{get, post, delete}
use nixway_core.Endpoints.Types.{
  arg, lit, Request, Platform, Params, query_of, set_text, set_number,
}

-- `RowsQuery`
pub record RowsQuery : Type 0 where
  pub page : Option ℕ
  pub limit : Option ℕ
  pub sort : Option String
  pub order : Option String

abbrev pub rows_params : Platform → RowsQuery → Params
rows_params p q =
    set_number p "page" q.page
    ++ (set_number p "limit" q.limit ++ (set_text "sort" q.sort ++ set_text "order" q.order))

pub data DatabasesCall : Type 0 where
  list_templates : DatabasesCall
  get_template : String → DatabasesCall
  list_versions : String → DatabasesCall
  list_databases : String → DatabasesCall
  get_database : String → String → DatabasesCall
  get_by_id : String → DatabasesCall
  provision : String → Members → DatabasesCall
  provision_stream_url : String → String → DatabasesCall
  remove_database : String → String → DatabasesCall
  start : String → String → DatabasesCall
  stop : String → String → DatabasesCall
  list_links : String → String → DatabasesCall
  link : String → String → Members → DatabasesCall
  unlink : String → String → String → DatabasesCall
  rotate : String → String → DatabasesCall
  list_rotations : String → String → DatabasesCall
  list_backups : String → String → DatabasesCall
  create_backup : String → String → DatabasesCall
  get_backup : String → String → String → DatabasesCall
  remove_backup : String → String → String → DatabasesCall
  restore : String → String → Members → DatabasesCall
  list_schemas : String → DatabasesCall
  list_tables : String → String → DatabasesCall
  get_table_rows : String → String → String → RowsQuery → DatabasesCall
  run_query : String → Members → DatabasesCall
  list_query_history : String → ℕ → DatabasesCall

module _ (p : Platform) where
  unfoldable pub databases_request : DatabasesCall → Request
  databases_request list_templates = record {
    method = get;
    parts = lit "templates" ∷ [];
    query = none;
    body = none;
  }
  databases_request (get_template slug) = record {
    method = get;
    parts = lit "templates" ∷ arg slug ∷ [];
    query = none;
    body = none;
  }
  databases_request (list_versions slug) = record {
    method = get;
    parts = lit "templates" ∷ arg slug ∷ lit "versions" ∷ [];
    query = none;
    body = none;
  }
  databases_request (list_databases project_id) = record {
    method = get;
    parts = lit "projects" ∷ arg project_id ∷ lit "databases" ∷ [];
    query = none;
    body = none;
  }
  databases_request (get_database project_id db_id) = record {
    method = get;
    parts = lit "projects" ∷ arg project_id ∷ lit "databases" ∷ arg db_id ∷ [];
    query = none;
    body = none;
  }
  databases_request (get_by_id db_id) = record {
    method = get;
    parts = lit "databases" ∷ arg db_id ∷ [];
    query = none;
    body = none;
  }
  databases_request (provision project_id input) = record {
    method = post;
    parts = lit "projects" ∷ arg project_id ∷ lit "databases" ∷ [];
    query = none;
    body = some (obj input);
  }
  databases_request (provision_stream_url project_id db_id) = record {
    method = get;
    parts =
        lit "projects" ∷ arg project_id ∷ lit "databases" ∷ arg db_id ∷ lit "provision-stream" ∷ [];
    query = none;
    body = none;
  }
  databases_request (remove_database project_id db_id) = record {
    method = delete;
    parts = lit "projects" ∷ arg project_id ∷ lit "databases" ∷ arg db_id ∷ [];
    query = none;
    body = none;
  }
  databases_request (start project_id db_id) = record {
    method = post;
    parts = lit "projects" ∷ arg project_id ∷ lit "databases" ∷ arg db_id ∷ lit "start" ∷ [];
    query = none;
    body = none;
  }
  databases_request (stop project_id db_id) = record {
    method = post;
    parts = lit "projects" ∷ arg project_id ∷ lit "databases" ∷ arg db_id ∷ lit "stop" ∷ [];
    query = none;
    body = none;
  }
  databases_request (list_links project_id db_id) = record {
    method = get;
    parts = lit "projects" ∷ arg project_id ∷ lit "databases" ∷ arg db_id ∷ lit "links" ∷ [];
    query = none;
    body = none;
  }
  databases_request (link project_id db_id input) = record {
    method = post;
    parts = lit "projects" ∷ arg project_id ∷ lit "databases" ∷ arg db_id ∷ lit "links" ∷ [];
    query = none;
    body = some (obj input);
  }
  databases_request (unlink project_id db_id link_id) = record {
    method = delete;
    parts =
        lit "projects"
        ∷ arg project_id
        ∷ lit "databases"
        ∷ arg db_id
        ∷ lit "links"
        ∷ arg link_id
        ∷ [];
    query = none;
    body = none;
  }
  databases_request (rotate project_id db_id) = record {
    method = post;
    parts = lit "projects" ∷ arg project_id ∷ lit "databases" ∷ arg db_id ∷ lit "rotate" ∷ [];
    query = none;
    body = none;
  }
  databases_request (list_rotations project_id db_id) = record {
    method = get;
    parts = lit "projects" ∷ arg project_id ∷ lit "databases" ∷ arg db_id ∷ lit "rotations" ∷ [];
    query = none;
    body = none;
  }
  databases_request (list_backups project_id db_id) = record {
    method = get;
    parts = lit "projects" ∷ arg project_id ∷ lit "databases" ∷ arg db_id ∷ lit "backups" ∷ [];
    query = none;
    body = none;
  }
  databases_request (create_backup project_id db_id) = record {
    method = post;
    parts = lit "projects" ∷ arg project_id ∷ lit "databases" ∷ arg db_id ∷ lit "backups" ∷ [];
    query = none;
    body = none;
  }
  databases_request (get_backup project_id db_id backup_id) = record {
    method = get;
    parts =
        lit "projects"
        ∷ arg project_id
        ∷ lit "databases"
        ∷ arg db_id
        ∷ lit "backups"
        ∷ arg backup_id
        ∷ [];
    query = none;
    body = none;
  }
  databases_request (remove_backup project_id db_id backup_id) = record {
    method = delete;
    parts =
        lit "projects"
        ∷ arg project_id
        ∷ lit "databases"
        ∷ arg db_id
        ∷ lit "backups"
        ∷ arg backup_id
        ∷ [];
    query = none;
    body = none;
  }
  databases_request (restore project_id db_id input) = record {
    method = post;
    parts = lit "projects" ∷ arg project_id ∷ lit "databases" ∷ arg db_id ∷ lit "restore" ∷ [];
    query = none;
    body = some (obj input);
  }
  databases_request (list_schemas db_id) = record {
    method = get;
    parts = lit "databases" ∷ arg db_id ∷ lit "schemas" ∷ [];
    query = none;
    body = none;
  }
  databases_request (list_tables db_id schema) = record {
    method = get;
    parts = lit "databases" ∷ arg db_id ∷ lit "schemas" ∷ arg (p.encode schema) ∷ lit "tables" ∷ [];
    query = none;
    body = none;
  }
  databases_request (get_table_rows db_id schema table q) = record {
    method = get;
    parts =
        lit "databases"
        ∷ arg db_id
        ∷ lit "schemas"
        ∷ arg (p.encode schema)
        ∷ lit "tables"
        ∷ arg (p.encode table)
        ∷ lit "rows"
        ∷ [];
    query = query_of p (rows_params p q);
    body = none;
  }
  databases_request (run_query db_id input) = record {
    method = post;
    parts = lit "databases" ∷ arg db_id ∷ lit "query" ∷ [];
    query = none;
    body = some (obj input);
  }
  databases_request (list_query_history db_id limit) = record {
    method = get;
    parts = lit "databases" ∷ arg db_id ∷ lit "query-history" ∷ [];
    query = some ("limit=" <> p.show limit);
    body = none;
  }
