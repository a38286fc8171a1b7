-- ===== src/Provision/Dialog.antt =====
-- ProvisionDialog of apps/web-v2/components/databases/DatabasesListClient.tsx, for one project and one
-- list of templates. The name of the result's database and its passwords are only shown.
use nixway_core.Prelude.{
  String, Bool, true, false, not, ◌||◌, List, [], ◌∷◌, Option, none, some, ◌<>◌, str_eq, truthy,
  or_else, find, if◌then◌else◌,
}
use nixway_core.Json.{Json}
use nixway_core.Models.{Number}
use nixway_core.Models.Databases.{DatabaseProvisionResult, TemplateVersion, Template}
use nixway_core.CreateApp.Dialog.{Runtime, numeric_or, given}

pub data RunStatus : Type 0 where
  streaming success failed : RunStatus

-- the state of the dialog
pub record Dialog : Type 0 where
  pub is_open : Bool
  pub slug : String
  pub version : String
  pub name : String
  pub server_id : String
  pub size : String
  pub cpu : String
  pub memory : String
  pub schedule : String
  pub retention : String
  pub error : Option String
  pub result : Option DatabaseProvisionResult
  pub run_status : RunStatus

-- `ProvisionDatabaseInput`; a member that is `none` is not sent
pub record ProvisionInput : Type 0 where
  pub cluster_id : String
  pub server_id : Option String
  pub template_slug : String
  pub version : String
  pub name : String
  pub size_gb : Json
  pub cpu_millicores : Json
  pub memory_mb : Json
  pub backup_schedule : Option String
  pub retention_days : Option Json

pub data Provisioning : Type 0 where
  refused : String → Provisioning
  sends : ProvisionInput → Provisioning

abbrev pub is_default_version : TemplateVersion → Bool
is_default_version v = or_else v.is_default false

abbrev pub first_version : List TemplateVersion → String
first_version [] = ""
first_version (v ∷ vs) = v.version

abbrev pub version_or : Option TemplateVersion → String → String
version_or none v = v
version_or (some w) v = w.version

-- the version that is chosen with a template
abbrev pub default_version : Option Template → String
default_version none = ""
default_version (some t) =
    version_or (find is_default_version t.versions) (first_version t.versions)

abbrev default_size : Option Template → Number
default_size none = "10"
default_size (some t) = or_else t.volume_spec.default_gib "10"

abbrev default_cpu : Option Template → Number
default_cpu none = "500"
default_cpu (some t) = t.default_resources.milli_cpu

abbrev default_memory : Option Template → Number
default_memory none = "512"
default_memory (some t) = t.default_resources.memory_mb

module _ (templates : List Template) where
  abbrev pub find_template : String → Option Template
  find_template slug = find (λ t. str_eq t.slug slug) templates

  abbrev pub initial_slug : List Template → String
  initial_slug [] = ""
  initial_slug (t ∷ ts) = t.slug

  abbrev pub first_template_slug : String
  first_template_slug = initial_slug templates

  -- the initial values of `useState`
  unfoldable pub first_dialog : Dialog
  first_dialog = record {
    is_open = false;
    slug = first_template_slug;
    version = default_version (find_template first_template_slug);
    name = "";
    server_id = "";
    size = default_size (find_template first_template_slug);
    cpu = default_cpu (find_template first_template_slug);
    memory = default_memory (find_template first_template_slug);
    schedule = "";
    retention = "7";
    error = none;
    result = none;
    run_status = streaming;
  }

  unfoldable pub select_template : String → Dialog → Dialog
  select_template next d = record d {
    slug = next;
    version = default_version (find_template next);
    size = default_size (find_template next);
    cpu = default_cpu (find_template next);
    memory = default_memory (find_template next);
  }

  unfoldable pub reset : Dialog → Dialog
  unfolding select_template
  reset d = record (select_template first_template_slug d) {
    name = "";
    server_id = "";
    schedule = "";
    retention = "7";
    error = none;
    result = none;
    run_status = streaming;
  }

  -- `onOpenChange`
  abbrev pub set_open : Bool → Dialog → Dialog
  set_open true d = record d { is_open = true }
  set_open false d = reset (record d { is_open = false })

  abbrev pub continue_with : Option DatabaseProvisionResult → Dialog → Dialog
  continue_with none d = d
  continue_with (some r) d = reset (record d { is_open = false })

  abbrev page_of : String → Option DatabaseProvisionResult → Option String
  page_of project_id none = none
  page_of project_id (some r) =
      some ("/projects/" <> (project_id <> ("/databases/" <> r.database.id)))

  -- `handleContinue`: the state, and the page that is opened
  abbrev pub handle_continue : String → Dialog → Dialog × Option String
  handle_continue project_id d = (continue_with d.result d, page_of project_id d.result)

-- `onSuccess`, `onError` and `onTerminal`
abbrev pub on_created : DatabaseProvisionResult → Dialog → Dialog
on_created r d = record d { result = some r; error = none }

abbrev pub on_failed : String → Dialog → Dialog
on_failed e d = record d { error = some e }

abbrev pub on_terminal : Bool → Dialog → Dialog
on_terminal true d = record d { run_status = success }
on_terminal false d = record d { run_status = failed }

module _ (r : Runtime) where
  unfoldable pub provision_input : String → Dialog → ProvisionInput
  provision_input cluster_id d = record {
    cluster_id = cluster_id;
    server_id = given d.server_id;
    template_slug = d.slug;
    version = d.version;
    name = r.trim d.name;
    size_gb = numeric_or (r.number d.size) "0";
    cpu_millicores = numeric_or (r.number d.cpu) "0";
    memory_mb = numeric_or (r.number d.memory) "0";
    backup_schedule = given (r.trim d.schedule);
    retention_days =
        if truthy (r.trim d.schedule) then some (numeric_or (r.number d.retention) "0") else none;
  }

  abbrev pub to_cluster : Option String → Dialog → Provisioning
  to_cluster none d = refused "Project has no cluster — assign one first."
  to_cluster (some c) d =
      if truthy c
      then sends (provision_input c d)
      else refused "Project has no cluster — assign one first."

  -- `mutationFn`, for the cluster of the project
  unfoldable pub submit_provision : Option String → Dialog → Provisioning
  unfolding provision_input
  submit_provision cluster_id d =
      if not (truthy (r.trim d.name))
      then refused "Name is required."
      else if not (truthy d.slug) || not (truthy d.version)
      then refused "Pick a template and version."
      else to_cluster cluster_id d
