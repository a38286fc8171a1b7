-- ===== src/Contract/Databases.antt =====
-- The handler in internal/api/router.go that each call of Endpoints/Databases.antt is meant for, and the
-- verdict of the route tables on it.
use nixway_core.Prelude.{String, [], ◌∷◌, some, ◌≡◌, refl}
use nixway_core.Endpoints.Types.{Platform}
use nixway_core.Endpoints.Databases.{
  DatabasesCall, databases_request, list_templates, get_template, list_versions, list_databases,
  get_database, get_by_id, provision, provision_stream_url, remove_database, start, stop,
  list_links, link, unlink, rotate, list_rotations, list_backups, create_backup, get_backup,
  remove_backup, restore, list_schemas, list_tables, get_table_rows, run_query, list_query_history,
}
use nixway_core.Router.Dispatch.{decided}

abbrev pub databases_handler : DatabasesCall → String
databases_handler list_templates = "templateH.List"
databases_handler (get_template _) = "templateH.Get"
databases_handler (list_versions _) = "templateH.ListVersions"
databases_handler (list_databases _) = "databaseH.List"
databases_handler (get_database _ _) = "databaseH.Get"
databases_handler (get_by_id _) = "databaseH.GetByID"
databases_handler (provision _ _) = "databaseH.Provision"
databases_handler (provision_stream_url _ _) = "databaseH.StreamProvisionLogs"
databases_handler (remove_database _ _) = "databaseH.Delete"
databases_handler (start _ _) = "databaseH.Start"
databases_handler (stop _ _) = "databaseH.Stop"
databases_handler (list_links _ _) = "databaseH.ListLinks"
databases_handler (link _ _ _) = "databaseH.LinkDatabase"
databases_handler (unlink _ _ _) = "databaseH.UnlinkDatabase"
databases_handler (rotate _ _) = "databaseH.RotateCredentials"
databases_handler (list_rotations _ _) = "databaseH.ListRotations"
databases_handler (list_backups _ _) = "databaseH.ListBackups"
databases_handler (create_backup _ _) = "databaseH.CreateBackup"
databases_handler (get_backup _ _ _) = "databaseH.GetBackup"
databases_handler (remove_backup _ _ _) = "databaseH.DeleteBackup"
databases_handler (restore _ _ _) = "databaseH.Restore"
databases_handler (list_schemas _) = "dbToolingH.ListSchemas"
databases_handler (list_tables _ _) = "dbToolingH.ListTables"
databases_handler (get_table_rows _ _ _ _) = "dbToolingH.GetTableRows"
databases_handler (run_query _ _) = "dbToolingH.RunQuery"
databases_handler (list_query_history _ _) = "dbToolingH.ListQueryHistory"

pub databases_verdict :
    (p : Platform) (c : DatabasesCall)
    → decided (databases_request p c).method (databases_request p c).parts
      ≡ some (databases_handler c ∷ [])
unfolding decided databases_request
databases_verdict p list_templates = refl
databases_verdict p (get_template _) = refl
databases_verdict p (list_versions _) = refl
databases_verdict p (list_databases _) = refl
databases_verdict p (get_database _ _) = refl
databases_verdict p (get_by_id _) = refl
databases_verdict p (provision _ _) = refl
databases_verdict p (provision_stream_url _ _) = refl
databases_verdict p (remove_database _ _) = refl
databases_verdict p (start _ _) = refl
databases_verdict p (stop _ _) = refl
databases_verdict p (list_links _ _) = refl
databases_verdict p (link _ _ _) = refl
databases_verdict p (unlink _ _ _) = refl
databases_verdict p (rotate _ _) = refl
databases_verdict p (list_rotations _ _) = refl
databases_verdict p (list_backups _ _) = refl
databases_verdict p (create_backup _ _) = refl
databases_verdict p (get_backup _ _ _) = refl
databases_verdict p (remove_backup _ _ _) = refl
databases_verdict p (restore _ _ _) = refl
databases_verdict p (list_schemas _) = refl
databases_verdict p (list_tables _ _) = refl
databases_verdict p (get_table_rows _ _ _ _) = refl
databases_verdict p (run_query _ _) = refl
databases_verdict p (list_query_history _ _) = refl
