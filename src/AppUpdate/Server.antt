-- ===== src/AppUpdate/Server.antt =====
-- AppHandler.Update of internal/api/handler/app.go, with Service.Update of internal/app/service.go and
-- the checks of the table in sql/migrations/00005_projects_deployments.sql.
use nixway_core.Prelude.{
  ℕ, among, String, Bool, true, false, ◌&&◌, ◌||◌, List, [], ◌∷◌, Option, none, some, str_eq,
  truthy, any, if◌then◌else◌, not,
}
use nixway_core.Prelude.Int.{ℤ}
use nixway_core.Json.{Json, null, obj, Members, end, member, get_member}
use nixway_core.AppUpdate.Decode.{
  ◌>>=◌, as_string, as_pointer, as_bool, Decoder, as_int32, as_strings,
}

-- The columns of an app's row that the handler writes. The placement constraints stand as their
-- JSON.
pub record Row : Type 0 where
  pub name : String
  pub branch : Option String
  pub root_path : String
  pub auto_deploy : Bool
  pub builder : String
  pub dockerfile_path : String
  pub port : ℤ
  pub health_check_path : String
  pub health_check_interval : ℤ
  pub health_check_timeout : ℤ
  pub replicas : ℤ
  pub subdomain : Option String
  pub custom_domain : Option String
  pub status : String
  pub placement_strategy : String
  pub placement_constraints : Json
  pub pinned_server_ids : List String

-- the request, once decoded; the constraints are merged with the current ones
pub record UpdateRequest : Type 0 where
  pub name : String
  pub branch : Option String
  pub root_path : String
  pub auto_deploy : Bool
  pub builder : String
  pub dockerfile_path : String
  pub port : ℤ
  pub health_check_path : String
  pub health_check_interval : ℤ
  pub health_check_timeout : ℤ
  pub replicas : ℤ
  pub subdomain : Option String
  pub custom_domain : Option String
  pub status : String
  pub placement_strategy : String
  pub placement_constraints : Json
  pub pinned_server_ids : Option (List String)

pub data UpdateAnswer : Type 0 where
  fails : ℕ → String → UpdateAnswer
  updated : Row → UpdateAnswer

-- `DisallowUnknownFields`
abbrev fields : List String
fields =
    "name" ∷ "branch" ∷ "root_path" ∷ "auto_deploy" ∷ "builder" ∷ "dockerfile_path" ∷ "port"
    ∷ "health_check_path" ∷ "health_check_interval" ∷ "health_check_timeout" ∷ "replicas"
    ∷ "subdomain" ∷ "custom_domain" ∷ "status" ∷ "placement_strategy" ∷ "placement_constraints"
    ∷ "pinned_server_ids" ∷ []

unfoldable pub known : Members → Bool
known end = true
known (member key v ms) = any (λ f. str_eq f key) fields && known ms

-- `req.PlacementConstraints.MustHave != nil || req.PlacementConstraints.MustNotHave != nil`
abbrev is_set : Option Json → Bool
is_set none = false
is_set (some null) = false
is_set _ = true

abbrev pub constraints_or : Option Json → Json → Option Json
constraints_or none current = some current
constraints_or (some null) current = some current
constraints_or (some (obj ms)) current = some (
    if is_set (get_member "must_have" ms) || is_set (get_member "must_not_have" ms)
    then obj ms
    else current)
constraints_or _ current = none

-- `parseUUIDList`: empty texts are dropped, and another text that is no UUID is an error
module _ (is_uuid : String → Bool) where
  unfoldable pub parse_ids : List String → Option (List String)
  parse_ids [] = some []
  parse_ids (s ∷ ss) =
      let rest = parse_ids ss in
      if not (truthy s)
      then rest
      else if is_uuid s
      then elim rest [ none ↦ none | some ids ↦ some (s ∷ ids) ]
      else none

  -- `if req.PinnedServerIDs != nil`
  unfoldable pub pins_or : Option (List String) → List String → Option (List String)
  pins_or none current = some current
  pins_or (some ids) current = parse_ids ids

  -- `defaultPlacementStrategy`
  abbrev pub default_strategy : String → String
  default_strategy s =
      if str_eq s "binpack" then "binpack" else if str_eq s "pinned" then "pinned" else "spread"

  abbrev pub or_current : String → String → String
  or_current given current = if truthy given then given else current

-- the checks of the columns `builder` and `status`; `default_strategy` gives what the check of
-- `placement_strategy` takes
abbrev pub builders : List String
builders = "auto" ∷ "dockerfile" ∷ "nixpacks" ∷ "buildpacks" ∷ "railpack" ∷ []

abbrev pub statuses : List String
statuses = "active" ∷ "paused" ∷ "stopped" ∷ []

abbrev pub is_valid_row : Row → Bool
is_valid_row row = among builders row.builder && among statuses row.status

module _ (d : Decoder) where
  unfoldable pub decode_update : Members → Json → Option UpdateRequest
  decode_update ms current = if not (known ms) then none else do
    name ← as_string (get_member "name" ms)
    branch ← as_pointer (get_member "branch" ms)
    root_path ← as_string (get_member "root_path" ms)
    auto_deploy ← as_bool (get_member "auto_deploy" ms)
    builder ← as_string (get_member "builder" ms)
    dockerfile_path ← as_string (get_member "dockerfile_path" ms)
    port ← as_int32 d (get_member "port" ms)
    health_check_path ← as_string (get_member "health_check_path" ms)
    interval ← as_int32 d (get_member "health_check_interval" ms)
    timeout ← as_int32 d (get_member "health_check_timeout" ms)
    replicas ← as_int32 d (get_member "replicas" ms)
    subdomain ← as_pointer (get_member "subdomain" ms)
    custom_domain ← as_pointer (get_member "custom_domain" ms)
    status ← as_string (get_member "status" ms)
    strategy ← as_string (get_member "placement_strategy" ms)
    pinned ← as_strings (get_member "pinned_server_ids" ms)
    constraints ← constraints_or (get_member "placement_constraints" ms) current
    some (record {
      name = name;
      branch = branch;
      root_path = root_path;
      auto_deploy = auto_deploy;
      builder = builder;
      dockerfile_path = dockerfile_path;
      port = port;
      health_check_path = health_check_path;
      health_check_interval = interval;
      health_check_timeout = timeout;
      replicas = replicas;
      subdomain = subdomain;
      custom_domain = custom_domain;
      status = status;
      placement_strategy = strategy;
      placement_constraints = constraints;
      pinned_server_ids = pinned;
    })

  -- the row that `UpdateApp` writes
  abbrev pub row_of : UpdateRequest → Row → List String → Row
  row_of q row pins = record {
    name = q.name;
    branch = q.branch;
    root_path = q.root_path;
    auto_deploy = q.auto_deploy;
    builder = q.builder;
    dockerfile_path = q.dockerfile_path;
    port = q.port;
    health_check_path = q.health_check_path;
    health_check_interval = q.health_check_interval;
    health_check_timeout = q.health_check_timeout;
    replicas = q.replicas;
    subdomain = q.subdomain;
    custom_domain = q.custom_domain;
    status = or_current d.is_uuid q.status "active";
    placement_strategy =
        default_strategy d.is_uuid
          (or_current d.is_uuid q.placement_strategy row.placement_strategy);
    placement_constraints = q.placement_constraints;
    pinned_server_ids = pins;
  }

  abbrev pub write_row : Row → UpdateAnswer
  write_row row = if is_valid_row row then updated row else fails 500 "failed to update app"

  abbrev pub answer_pins : UpdateRequest → Row → Option (List String) → UpdateAnswer
  answer_pins q row none = fails 400 "invalid pinned_server_ids"
  answer_pins q row (some pins) = write_row (row_of q row pins)

  abbrev pub answer_update : Option UpdateRequest → Row → UpdateAnswer
  answer_update none row = fails 400 "invalid request body"
  answer_update (some q) row =
      answer_pins q row (pins_or d.is_uuid q.pinned_server_ids row.pinned_server_ids)

  -- the handler, on the row of an app that is found
  unfoldable pub handle_update : Members → Row → UpdateAnswer
  unfolding decode_update
  handle_update ms row = answer_update (decode_update ms row.placement_constraints) row
