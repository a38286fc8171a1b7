-- ===== src/Witnesses/Data.antt =====
-- What the concrete inputs share: a runtime, a JSON reader and responses.
use nixway_core.Prelude.{
  true, ℕ, zero, suc, String, [], ◌∷◌, Option, none, some, ◌<>◌, str_eq, if◌then◌else◌,
}
use nixway_core.Json.{Json, obj, end, Members, member, str}
use nixway_core.Endpoints.Types.{Params, Platform}
use nixway_core.Http.Types.{Response}
use nixway_core.Models.{App}

-- a number in base one
abbrev pub strokes : ℕ → String
strokes zero = ""
strokes (suc n) = "1" <> strokes n

abbrev pub joined_params : Params → String
joined_params [] = ""
joined_params ((k, v) ∷ ps) = (k <> "=") <> (v <> joined_params ps)

abbrev pub plain_platform : Platform
plain_platform = record { encode = λ s. s; search_params = joined_params; show = strokes }

-- the body that the API sends with a refused request
abbrev pub refusal : Members
refusal = member "error" (str "Bad Request") (member "message" (str "name is required") end)

-- a reader of two bodies
abbrev pub read_body : String → Option Json
read_body text =
    if str_eq text "{}"
    then some (obj end)
    else if str_eq text "refusal"
    then some (obj refusal)
    else none

abbrev pub response : ℕ → String → String → Response
response status status_text text = record {
  status = status;
  status_text = status_text;
  text = text;
}

-- an app
abbrev pub shop : App
shop = record {
  id = "a1";
  project_id = "p1";
  name = "shop";
  slug = "shop";
  source_type = "git";
  github_installation_id = none;
  repo_full_name = none;
  branch = some "main";
  root_path = some "web";
  auto_deploy = some true;
  docker_image = none;
  registry_credential_id = none;
  builder = some "nixpacks";
  dockerfile_path = none;
  port = some 2;
  health_check_path = some "/up";
  replicas = some 1;
  placement_strategy = some "pinned";
  pinned_server_ids = some ("s1" ∷ []);
  status = "active";
  resource_cpu_millicores = none;
  resource_memory_mb = none;
  cpu_limit_millicores = none;
  memory_limit_mb = none;
  custom_domain = some "shop.example.com";
  custom_domain_verified = some true;
  created_at = "";
  updated_at = "";
}
