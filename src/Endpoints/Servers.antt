-- ===== src/Endpoints/Servers.antt =====
-- Calls of serversApi, serverProvisionApi, tagsApi and sshKeysApi, apps/web-v2/lib/api.ts lines 244 to 300. An input object that
-- a caller passes stands as the members of its JSON.
use nixway_core.Prelude.{String, List, [], ◌∷◌, none, some}
use nixway_core.Json.{str, obj, Members, end, member}
use nixway_core.Http.Types.{get, post, put, delete}
use nixway_core.Models.{ServerRole, server_role_name}
use nixway_core.Endpoints.Types.{arg, lit, Request, Platform, texts}

pub data ServersCall : Type 0 where
  list_servers : String → ServersCall
  get_server : String → String → ServersCall
  create_server : String → Members → ServersCall
  update_server : String → String → Members → ServersCall
  set_role : String → String → ServerRole → ServersCall
  remove_server : String → String → ServersCall
  cleanup : String → String → ServersCall
  metrics : String → String → ServersCall
  provision_status : String → String → ServersCall
  start_provision : String → String → (List String) → ServersCall
  retry_provision : String → String → ServersCall
  provision_logs_url : String → String → String → ServersCall
  list_tags : String → String → ServersCall
  set_tag : String → String → String → String → ServersCall
  remove_tag : String → String → String → ServersCall
  list_ssh_keys : String → ServersCall
  get_ssh_key : String → String → ServersCall
  create_ssh_key : String → Members → ServersCall
  remove_ssh_key : String → String → ServersCall

module _ (p : Platform) where
  unfoldable pub servers_request : ServersCall → Request
  servers_request (list_servers team_id) = record {
    method = get;
    parts = lit "teams" ∷ arg team_id ∷ lit "servers" ∷ [];
    query = none;
    body = none;
  }
  servers_request (get_server team_id server_id) = record {
    method = get;
    parts = lit "teams" ∷ arg team_id ∷ lit "servers" ∷ arg server_id ∷ [];
    query = none;
    body = none;
  }
  servers_request (create_server team_id input) = record {
    method = post;
    parts = lit "teams" ∷ arg team_id ∷ lit "servers" ∷ [];
    query = none;
    body = some (obj input);
  }
  servers_request (update_server team_id server_id input) = record {
    method = put;
    parts = lit "teams" ∷ arg team_id ∷ lit "servers" ∷ arg server_id ∷ [];
    query = none;
    body = some (obj input);
  }
  servers_request (set_role team_id server_id role) = record {
    method = put;
    parts = lit "teams" ∷ arg team_id ∷ lit "servers" ∷ arg server_id ∷ lit "role" ∷ [];
    query = none;
    body = some (obj (member "role" (str (server_role_name role)) end));
  }
  servers_request (remove_server team_id server_id) = record {
    method = delete;
    parts = lit "teams" ∷ arg team_id ∷ lit "servers" ∷ arg server_id ∷ [];
    query = none;
    body = none;
  }
  servers_request (cleanup team_id server_id) = record {
    method = post;
    parts = lit "teams" ∷ arg team_id ∷ lit "servers" ∷ arg server_id ∷ lit "cleanup" ∷ [];
    query = none;
    body = none;
  }
  servers_request (metrics team_id server_id) = record {
    method = get;
    parts = lit "teams" ∷ arg team_id ∷ lit "servers" ∷ arg server_id ∷ lit "metrics" ∷ [];
    query = none;
    body = none;
  }
  servers_request (provision_status team_id server_id) = record {
    method = get;
    parts = lit "teams" ∷ arg team_id ∷ lit "servers" ∷ arg server_id ∷ lit "provision" ∷ [];
    query = none;
    body = none;
  }
  servers_request (start_provision team_id server_id components) = record {
    method = post;
    parts = lit "teams" ∷ arg team_id ∷ lit "servers" ∷ arg server_id ∷ lit "provision" ∷ [];
    query = none;
    body = some (obj (member "components" (texts components) end));
  }
  servers_request (retry_provision team_id server_id) = record {
    method = post;
    parts =
        lit "teams"
        ∷ arg team_id
        ∷ lit "servers"
        ∷ arg server_id
        ∷ lit "provision"
        ∷ lit "retry"
        ∷ [];
    query = none;
    body = some (obj end);
  }
  servers_request (provision_logs_url team_id server_id job_id) = record {
    method = get;
    parts =
        lit "teams"
        ∷ arg team_id
        ∷ lit "servers"
        ∷ arg server_id
        ∷ lit "provision"
        ∷ arg job_id
        ∷ lit "logs"
        ∷ [];
    query = none;
    body = none;
  }
  servers_request (list_tags team_id server_id) = record {
    method = get;
    parts = lit "teams" ∷ arg team_id ∷ lit "servers" ∷ arg server_id ∷ lit "tags" ∷ [];
    query = none;
    body = none;
  }
  servers_request (set_tag team_id server_id key value) = record {
    method = post;
    parts = lit "teams" ∷ arg team_id ∷ lit "servers" ∷ arg server_id ∷ lit "tags" ∷ [];
    query = none;
    body = some (obj (member "key" (str key) (member "value" (str value) end)));
  }
  servers_request (remove_tag team_id server_id key) = record {
    method = delete;
    parts =
        lit "teams"
        ∷ arg team_id
        ∷ lit "servers"
        ∷ arg server_id
        ∷ lit "tags"
        ∷ arg (p.encode key)
        ∷ [];
    query = none;
    body = none;
  }
  servers_request (list_ssh_keys team_id) = record {
    method = get;
    parts = lit "teams" ∷ arg team_id ∷ lit "ssh-keys" ∷ [];
    query = none;
    body = none;
  }
  servers_request (get_ssh_key team_id key_id) = record {
    method = get;
    parts = lit "teams" ∷ arg team_id ∷ lit "ssh-keys" ∷ arg key_id ∷ [];
    query = none;
    body = none;
  }
  servers_request (create_ssh_key team_id input) = record {
    method = post;
    parts = lit "teams" ∷ arg team_id ∷ lit "ssh-keys" ∷ [];
    query = none;
    body = some (obj input);
  }
  servers_request (remove_ssh_key team_id key_id) = record {
    method = delete;
    parts = lit "teams" ∷ arg team_id ∷ lit "ssh-keys" ∷ arg key_id ∷ [];
    query = none;
    body = none;
  }
