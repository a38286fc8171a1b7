-- ===== src/Endpoints/Delivery.antt =====
-- Calls of buildsApi, deploymentsApi, secretsApi and appEnvVarsApi, apps/web-v2/lib/api.ts lines 592 to 655. An input object that
-- a caller passes stands as the members of its JSON.
use nixway_core.Prelude.{String, [], ◌∷◌, Option, none, some, ◌<>◌, truthy, if◌then◌else◌}
use nixway_core.Json.{str, obj, Members, end, member}
use nixway_core.Http.Types.{get, post, put, delete}
use nixway_core.Endpoints.Types.{arg, lit, Request, Platform}

-- `environment ? `?environment=${encodeURIComponent(environment)}` : ""`
abbrev pub environment_query : Platform → Option String → Option String
environment_query p none = none
environment_query p (some e) = if truthy e then some ("environment=" <> p.encode e) else none

pub data DeliveryCall : Type 0 where
  list_builds : String → DeliveryCall
  get_build : String → String → DeliveryCall
  trigger_build : String → Members → DeliveryCall
  build_logs_url : String → String → DeliveryCall
  list_deployments : String → DeliveryCall
  get_deployment : String → String → DeliveryCall
  list_targets : String → String → DeliveryCall
  deployment_logs_url : String → String → DeliveryCall
  list_secrets : String → (Option String) → DeliveryCall
  get_secret : String → String → DeliveryCall
  create_secret : String → Members → DeliveryCall
  update_secret : String → String → String → DeliveryCall
  reveal_secret : String → String → DeliveryCall
  remove_secret : String → String → DeliveryCall
  list_env_vars : String → String → DeliveryCall
  create_env_var : String → Members → DeliveryCall
  update_env_var : String → String → String → DeliveryCall
  reveal_env_var : String → String → DeliveryCall
  remove_env_var : String → String → DeliveryCall

module _ (p : Platform) where
  unfoldable pub delivery_request : DeliveryCall → Request
  delivery_request (list_builds app_id) = record {
    method = get;
    parts = lit "apps" ∷ arg app_id ∷ lit "builds" ∷ [];
    query = none;
    body = none;
  }
  delivery_request (get_build app_id build_id) = record {
    method = get;
    parts = lit "apps" ∷ arg app_id ∷ lit "builds" ∷ arg build_id ∷ [];
    query = none;
    body = none;
  }
  delivery_request (trigger_build app_id input) = record {
    method = post;
    parts = lit "apps" ∷ arg app_id ∷ lit "builds" ∷ [];
    query = none;
    body = some (obj input);
  }
  delivery_request (build_logs_url app_id build_id) = record {
    method = get;
    parts = lit "apps" ∷ arg app_id ∷ lit "builds" ∷ arg build_id ∷ lit "logs" ∷ [];
    query = none;
    body = none;
  }
  delivery_request (list_deployments app_id) = record {
    method = get;
    parts = lit "apps" ∷ arg app_id ∷ lit "deployments" ∷ [];
    query = none;
    body = none;
  }
  delivery_request (get_deployment app_id deploy_id) = record {
    method = get;
    parts = lit "apps" ∷ arg app_id ∷ lit "deployments" ∷ arg deploy_id ∷ [];
    query = none;
    body = none;
  }
  delivery_request (list_targets app_id deploy_id) = record {
    method = get;
    parts = lit "apps" ∷ arg app_id ∷ lit "deployments" ∷ arg deploy_id ∷ lit "targets" ∷ [];
    query = none;
    body = none;
  }
  delivery_request (deployment_logs_url app_id deploy_id) = record {
    method = get;
    parts = lit "apps" ∷ arg app_id ∷ lit "deployments" ∷ arg deploy_id ∷ lit "logs" ∷ [];
    query = none;
    body = none;
  }
  delivery_request (list_secrets team_id environment) = record {
    method = get;
    parts = lit "teams" ∷ arg team_id ∷ lit "secrets" ∷ [];
    query = environment_query p environment;
    body = none;
  }
  delivery_request (get_secret team_id secret_id) = record {
    method = get;
    parts = lit "teams" ∷ arg team_id ∷ lit "secrets" ∷ arg secret_id ∷ [];
    query = none;
    body = none;
  }
  delivery_request (create_secret team_id input) = record {
    method = post;
    parts = lit "teams" ∷ arg team_id ∷ lit "secrets" ∷ [];
    query = none;
    body = some (obj input);
  }
  delivery_request (update_secret team_id secret_id value) = record {
    method = put;
    parts = lit "teams" ∷ arg team_id ∷ lit "secrets" ∷ arg secret_id ∷ [];
    query = none;
    body = some (obj (member "value" (str value) end));
  }
  delivery_request (reveal_secret team_id secret_id) = record {
    method = post;
    parts = lit "teams" ∷ arg team_id ∷ lit "secrets" ∷ arg secret_id ∷ lit "reveal" ∷ [];
    query = none;
    body = none;
  }
  delivery_request (remove_secret team_id secret_id) = record {
    method = delete;
    parts = lit "teams" ∷ arg team_id ∷ lit "secrets" ∷ arg secret_id ∷ [];
    query = none;
    body = none;
  }
  delivery_request (list_env_vars app_id environment) = record {
    method = get;
    parts = lit "apps" ∷ arg app_id ∷ lit "env-vars" ∷ [];
    query = some ("environment=" <> p.encode environment);
    body = none;
  }
  delivery_request (create_env_var app_id input) = record {
    method = post;
    parts = lit "apps" ∷ arg app_id ∷ lit "env-vars" ∷ [];
    query = none;
    body = some (obj input);
  }
  delivery_request (update_env_var app_id var_id value) = record {
    method = put;
    parts = lit "apps" ∷ arg app_id ∷ lit "env-vars" ∷ arg var_id ∷ [];
    query = none;
    body = some (obj (member "value" (str value) end));
  }
  delivery_request (reveal_env_var app_id var_id) = record {
    method = post;
    parts = lit "apps" ∷ arg app_id ∷ lit "env-vars" ∷ arg var_id ∷ lit "reveal" ∷ [];
    query = none;
    body = none;
  }
  delivery_request (remove_env_var app_id var_id) = record {
    method = delete;
    parts = lit "apps" ∷ arg app_id ∷ lit "env-vars" ∷ arg var_id ∷ [];
    query = none;
    body = none;
  }
