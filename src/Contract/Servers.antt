-- ===== src/Contract/Servers.antt =====
-- The handler in internal/api/router.go that each call of Endpoints/Servers.antt is meant for, and the
-- verdict of the route tables on it.
use nixway_core.Prelude.{String, [], ◌∷◌, some, ◌≡◌, refl}
use nixway_core.Endpoints.Types.{Platform}
use nixway_core.Endpoints.Servers.{
  ServersCall, servers_request, list_servers, get_server, create_server, update_server, set_role,
  remove_server, cleanup, metrics, provision_status, start_provision, retry_provision,
  provision_logs_url, list_tags, set_tag, remove_tag, list_ssh_keys, get_ssh_key, create_ssh_key,
  remove_ssh_key,
}
use nixway_core.Router.Dispatch.{decided}

abbrev pub servers_handler : ServersCall → String
servers_handler (list_servers _) = "serverH.List"
servers_handler (get_server _ _) = "serverH.Get"
servers_handler (create_server _ _) = "serverH.Create"
servers_handler (update_server _ _ _) = "serverH.Update"
servers_handler (set_role _ _ _) = "serverH.SetRole"
servers_handler (remove_server _ _) = "serverH.Delete"
servers_handler (cleanup _ _) = "serverH.Cleanup"
servers_handler (metrics _ _) = "serverH.Metrics"
servers_handler (provision_status _ _) = "provisionH.Status"
servers_handler (start_provision _ _ _) = "provisionH.Start"
servers_handler (retry_provision _ _) = "provisionH.Retry"
servers_handler (provision_logs_url _ _ _) = "provisionH.StreamLogs"
servers_handler (list_tags _ _) = "tagH.List"
servers_handler (set_tag _ _ _ _) = "tagH.Set"
servers_handler (remove_tag _ _ _) = "tagH.Delete"
servers_handler (list_ssh_keys _) = "sshKeyH.List"
servers_handler (get_ssh_key _ _) = "sshKeyH.Get"
servers_handler (create_ssh_key _ _) = "sshKeyH.Create"
servers_handler (remove_ssh_key _ _) = "sshKeyH.Delete"

pub servers_verdict :
    (p : Platform) (c : ServersCall)
    → decided (servers_request p c).method (servers_request p c).parts
      ≡ some (servers_handler c ∷ [])
unfolding decided servers_request
servers_verdict p (list_servers _) = refl
servers_verdict p (get_server _ _) = refl
servers_verdict p (create_server _ _) = refl
servers_verdict p (update_server _ _ _) = refl
servers_verdict p (set_role _ _ _) = refl
servers_verdict p (remove_server _ _) = refl
servers_verdict p (cleanup _ _) = refl
servers_verdict p (metrics _ _) = refl
servers_verdict p (provision_status _ _) = refl
servers_verdict p (start_provision _ _ _) = refl
servers_verdict p (retry_provision _ _) = refl
servers_verdict p (provision_logs_url _ _ _) = refl
servers_verdict p (list_tags _ _) = refl
servers_verdict p (set_tag _ _ _ _) = refl
servers_verdict p (remove_tag _ _ _) = refl
servers_verdict p (list_ssh_keys _) = refl
servers_verdict p (get_ssh_key _ _) = refl
servers_verdict p (create_ssh_key _ _) = refl
servers_verdict p (remove_ssh_key _ _) = refl
