-- ===== src/Endpoints/Apps.antt =====
-- Calls of appsApi, apps/web-v2/lib/api.ts lines 481 to 555. An input object that
-- a caller passes stands as the members of its JSON.
use nixway_core.Prelude.{
  ℕ, String, Bool, false, [], ◌∷◌, ◌++◌, Option, none, some, truthy, or_else, if◌then◌else◌,
}
use nixway_core.Json.{Json, null, bool, num, str, obj, Members, end, member}
use nixway_core.Http.Types.{get, post, put, delete}
use nixway_core.Models.{App}
use nixway_core.Endpoints.Types.{
  arg, lit, Request, Platform, Params, query_of, set_text, set_nonzero, set_number, texts, nullable,
}

-- the options of `logsUrl`
pub record LogOptions : Type 0 where
  pub container : Option String
  pub tail : Option ℕ
  pub follow : Bool

abbrev pub log_params : Platform → LogOptions → Params
log_params p o =
    set_text "container" o.container
    ++ (set_nonzero p "tail" o.tail ++ (if o.follow then ("follow", "true") ∷ [] else []))

-- the options of `listScalingEvents`
pub record PageOptions : Type 0 where
  pub limit : Option ℕ
  pub offset : Option ℕ

abbrev pub page_params : Platform → PageOptions → Params
page_params p o = set_number p "limit" o.limit ++ set_number p "offset" o.offset

-- the body of `removeDomain`
abbrev pub remove_domain_body : Platform → App → Members
remove_domain_body p app = member "name" (str app.name) (
    member "branch" (nullable app.branch) (
      member "root_path" (str (or_else app.root_path "")) (
        member "auto_deploy" (bool (or_else app.auto_deploy false)) (
          member "builder" (str (or_else app.builder "")) (
            member "dockerfile_path" (str (or_else app.dockerfile_path "")) (
              member "port" (num (p.show (or_else app.port 0))) (
                member "health_check_path" (str (or_else app.health_check_path "")) (
                  member "replicas" (num (p.show (or_else app.replicas 1))) (
                    member "custom_domain" null (
                      member "status" (str app.status) (
                        member "placement_strategy" (str (or_else app.placement_strategy "spread"))
                          (member "pinned_server_ids" (texts (or_else app.pinned_server_ids []))
                            end))))))))))))

-- the body of `rollback`: `environment_id ? { environment_id } : {}`
abbrev pub rollback_body : Option String → Members
rollback_body none = end
rollback_body (some e) = if truthy e then member "environment_id" (str e) end else end

pub data AppsCall : Type 0 where
  list_apps : String → AppsCall
  get_app : String → AppsCall
  create_app : String → Members → AppsCall
  update_app : String → String → Members → AppsCall
  remove_app : String → String → AppsCall
  set_registry_credential : String → (Option String) → AppsCall
  set_domain : String → String → AppsCall
  verify_domain : String → AppsCall
  remove_domain : App → AppsCall
  update_resources : String → Members → AppsCall
  rollback : String → (Option String) → AppsCall
  list_replicas : String → AppsCall
  logs_url : String → LogOptions → AppsCall
  scale : String → Members → AppsCall
  list_scaling_events : String → PageOptions → AppsCall
  get_traffic : String → AppsCall
  update_traffic : String → Json → AppsCall
  promote_backend : String → String → AppsCall
  list_autoscaling_rules : String → AppsCall
  create_autoscaling_rule : String → Members → AppsCall
  delete_autoscaling_rule : String → String → AppsCall
  evaluate_autoscaling : String → AppsCall

module _ (p : Platform) where
  unfoldable pub apps_request : AppsCall → Request
  apps_request (list_apps project_id) = record {
    method = get;
    parts = lit "projects" ∷ arg project_id ∷ lit "apps" ∷ [];
    query = none;
    body = none;
  }
  apps_request (get_app app_id) = record {
    method = get;
    parts = lit "apps" ∷ arg app_id ∷ [];
    query = none;
    body = none;
  }
  apps_request (create_app project_id input) = record {
    method = post;
    parts = lit "projects" ∷ arg project_id ∷ lit "apps" ∷ [];
    query = none;
    body = some (obj input);
  }
  apps_request (update_app project_id app_id patch) = record {
    method = put;
    parts = lit "projects" ∷ arg project_id ∷ lit "apps" ∷ arg app_id ∷ [];
    query = none;
    body = some (obj patch);
  }
  apps_request (remove_app project_id app_id) = record {
    method = delete;
    parts = lit "projects" ∷ arg project_id ∷ lit "apps" ∷ arg app_id ∷ [];
    query = none;
    body = none;
  }
  apps_request (set_registry_credential app_id registry_credential_id) = record {
    method = put;
    parts = lit "apps" ∷ arg app_id ∷ lit "registry-credential" ∷ [];
    query = none;
    body = some (obj (member "registry_credential_id" (nullable registry_credential_id) end));
  }
  apps_request (set_domain app_id custom_domain) = record {
    method = post;
    parts = lit "apps" ∷ arg app_id ∷ lit "domain" ∷ [];
    query = none;
    body = some (obj (member "custom_domain" (str custom_domain) end));
  }
  apps_request (verify_domain app_id) = record {
    method = post;
    parts = lit "apps" ∷ arg app_id ∷ lit "domain" ∷ lit "verify" ∷ [];
    query = none;
    body = none;
  }
  apps_request (remove_domain app) = record {
    method = put;
    parts = lit "projects" ∷ arg app.project_id ∷ lit "apps" ∷ arg app.id ∷ [];
    query = none;
    body = some (obj (remove_domain_body p app));
  }
  apps_request (update_resources app_id input) = record {
    method = put;
    parts = lit "apps" ∷ arg app_id ∷ lit "resources" ∷ [];
    query = none;
    body = some (obj input);
  }
  apps_request (rollback app_id environment_id) = record {
    method = post;
    parts = lit "apps" ∷ arg app_id ∷ lit "rollback" ∷ [];
    query = none;
    body = some (obj (rollback_body environment_id));
  }
  apps_request (list_replicas app_id) = record {
    method = get;
    parts = lit "apps" ∷ arg app_id ∷ lit "replicas" ∷ [];
    query = none;
    body = none;
  }
  apps_request (logs_url app_id opts) = record {
    method = get;
    parts = lit "apps" ∷ arg app_id ∷ lit "logs" ∷ [];
    query = query_of p (log_params p opts);
    body = none;
  }
  apps_request (scale app_id input) = record {
    method = post;
    parts = lit "apps" ∷ arg app_id ∷ lit "scale" ∷ [];
    query = none;
    body = some (obj input);
  }
  apps_request (list_scaling_events app_id opts) = record {
    method = get;
    parts = lit "apps" ∷ arg app_id ∷ lit "scaling-events" ∷ [];
    query = query_of p (page_params p opts);
    body = none;
  }
  apps_request (get_traffic app_id) = record {
    method = get;
    parts = lit "apps" ∷ arg app_id ∷ lit "traffic" ∷ [];
    query = none;
    body = none;
  }
  apps_request (update_traffic app_id weights) = record {
    method = put;
    parts = lit "apps" ∷ arg app_id ∷ lit "traffic" ∷ [];
    query = none;
    body = some (obj (member "weights" (weights) end));
  }
  apps_request (promote_backend app_id backend_id) = record {
    method = post;
    parts =
        lit "apps"
        ∷ arg app_id
        ∷ lit "traffic"
        ∷ lit "backends"
        ∷ arg backend_id
        ∷ lit "promote"
        ∷ [];
    query = none;
    body = none;
  }
  apps_request (list_autoscaling_rules app_id) = record {
    method = get;
    parts = lit "apps" ∷ arg app_id ∷ lit "autoscaling-rules" ∷ [];
    query = none;
    body = none;
  }
  apps_request (create_autoscaling_rule app_id input) = record {
    method = post;
    parts = lit "apps" ∷ arg app_id ∷ lit "autoscaling-rules" ∷ [];
    query = none;
    body = some (obj input);
  }
  apps_request (delete_autoscaling_rule app_id rule_id) = record {
    method = delete;
    parts = lit "apps" ∷ arg app_id ∷ lit "autoscaling-rules" ∷ arg rule_id ∷ [];
    query = none;
    body = none;
  }
  apps_request (evaluate_autoscaling app_id) = record {
    method = post;
    parts = lit "apps" ∷ arg app_id ∷ lit "autoscaling" ∷ lit "evaluate" ∷ [];
    query = none;
    body = none;
  }
