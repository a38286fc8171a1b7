-- ===== src/CreateApp/Server.antt =====
-- AppHandler.Create of internal/api/handler/app.go, with Service.Create of internal/app/service.go.
use nixway_core.Prelude.{
  zero, String, Bool, true, not, ◌&&◌, List, [], ◌∷◌, Option, none, some, str_eq, truthy, any,
  or_else, or_text, ◌||◌, if◌then◌else◌,
}
use nixway_core.Prelude.Int.{ℤ, pos}
use nixway_core.Json.{Json, null, bool, obj, Members, end, member, get_member}
use nixway_core.AppUpdate.Decode.{◌>>=◌, as_string, as_pointer, as_strings, Decoder, as_int32}
use nixway_core.AppUpdate.Server.{parse_ids, default_strategy}

-- The columns of the row that is inserted, the slug apart, which is made of the name. The placement
-- constraints stand as their JSON, `none` for the zero value.
pub record NewApp : Type 0 where
  pub name : String
  pub source_type : String
  pub github_installation_id : Option String
  pub repo_full_name : Option String
  pub branch : Option String
  pub root_path : String
  pub auto_deploy : Bool
  pub docker_image : Option String
  pub registry_credential_id : Option String
  pub builder : String
  pub dockerfile_path : String
  pub port : ℤ
  pub health_check_path : String
  pub health_check_interval : ℤ
  pub health_check_timeout : ℤ
  pub replicas : ℤ
  pub subdomain : Option String
  pub placement_strategy : String
  pub placement_constraints : Option Members
  pub pinned_server_ids : List String

-- `DisallowUnknownFields` with the fields of `createAppRequest`
abbrev create_fields : List String
create_fields =
    "name" ∷ "source_type" ∷ "github_installation_id" ∷ "repo_full_name" ∷ "branch" ∷ "root_path"
    ∷ "auto_deploy" ∷ "docker_image" ∷ "registry_credential_id" ∷ "builder" ∷ "dockerfile_path"
    ∷ "port" ∷ "health_check_path" ∷ "health_check_interval" ∷ "health_check_timeout" ∷ "replicas"
    ∷ "subdomain" ∷ "placement_strategy" ∷ "placement_constraints" ∷ "pinned_server_ids" ∷ []

unfoldable pub create_known : Members → Bool
create_known end = true
create_known (member key v ms) = any (λ f. str_eq f key) create_fields && create_known ms

abbrev pub as_bool_pointer : Option Json → Option (Option Bool)
as_bool_pointer none = some none
as_bool_pointer (some null) = some none
as_bool_pointer (some (bool b)) = some (some b)
as_bool_pointer _ = none

abbrev pub as_object : Option Json → Option (Option Members)
as_object none = some none
as_object (some null) = some none
as_object (some (obj ms)) = some (some ms)
as_object _ = none

-- `if n == 0`
abbrev pub or_number : ℤ → ℤ → ℤ
or_number (pos zero) n = n
or_number m n = m

module _ (d : Decoder) where
  -- `if id != nil`, with the error of `uuid.Parse`
  abbrev pub as_id : Option String → Option (Option String)
  as_id none = some none
  as_id (some s) = if d.is_uuid s then some (some s) else none

  abbrev pub is_source : String → Bool
  is_source s = str_eq s "github" || str_eq s "docker_image"

  -- The handler behind the path and the decoder; `none` is status 400.
  unfoldable pub handle_create : Members → Option NewApp
  handle_create ms = if not (create_known ms) then none else do
    name ← as_string (get_member "name" ms)
    source_type ← as_string (get_member "source_type" ms)
    installation_id ← as_pointer (get_member "github_installation_id" ms)
    repo_full_name ← as_pointer (get_member "repo_full_name" ms)
    branch ← as_pointer (get_member "branch" ms)
    root_path ← as_string (get_member "root_path" ms)
    auto_deploy ← as_bool_pointer (get_member "auto_deploy" ms)
    docker_image ← as_pointer (get_member "docker_image" ms)
    credential_id ← as_pointer (get_member "registry_credential_id" ms)
    builder ← as_string (get_member "builder" ms)
    dockerfile_path ← as_string (get_member "dockerfile_path" ms)
    port ← as_int32 d (get_member "port" ms)
    health_check_path ← as_string (get_member "health_check_path" ms)
    interval ← as_int32 d (get_member "health_check_interval" ms)
    timeout ← as_int32 d (get_member "health_check_timeout" ms)
    replicas ← as_int32 d (get_member "replicas" ms)
    subdomain ← as_pointer (get_member "subdomain" ms)
    strategy ← as_string (get_member "placement_strategy" ms)
    constraints ← as_object (get_member "placement_constraints" ms)
    pinned ← as_strings (get_member "pinned_server_ids" ms)
    if not (truthy name) then none else if not (is_source source_type) then none else do
      installation ← as_id installation_id
      credential ← as_id credential_id
      pins ← parse_ids d.is_uuid (or_else pinned [])
      some (record {
        name = name;
        source_type = source_type;
        github_installation_id = installation;
        repo_full_name = repo_full_name;
        branch = branch;
        root_path = or_text (some root_path) "/";
        auto_deploy = or_else auto_deploy true;
        docker_image = docker_image;
        registry_credential_id = credential;
        builder = or_text (some builder) "auto";
        dockerfile_path = or_text (some dockerfile_path) "Dockerfile";
        port = or_number port (pos 8080);
        health_check_path = or_text (some health_check_path) "/healthz";
        health_check_interval = or_number interval (pos 5);
        health_check_timeout = or_number timeout (pos 60);
        replicas = or_number replicas (pos 1);
        subdomain = subdomain;
        placement_strategy = default_strategy d.is_uuid strategy;
        placement_constraints = constraints;
        pinned_server_ids = pins;
      })
