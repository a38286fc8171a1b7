-- ===== src/Witnesses/Orders.antt =====
-- The order of a database at a concrete template.
use nixway_core.Prelude.{[], ◌∷◌, none, some, ◌≡◌, refl, String, List}
use nixway_core.Models.Databases.{TemplateVersion, Template}
use nixway_core.CreateApp.Dialog.{Runtime, literal}
use nixway_core.Provision.Dialog.{
  Dialog, first_dialog, select_template, submit_provision, provision_input,
}
use nixway_core.Provision.Registry.{found, get_version}
use nixway_core.Provision.Offered.{mounted, picked, versioned, typed}
use nixway_core.Provision.Ordered.{submit_provision-get_version}

abbrev postgres_version : String → TemplateVersion
postgres_version v = record { version = v; image = "postgres"; is_default = none }

abbrev template_of : String → Template
template_of slug = record {
  slug = slug;
  name = slug;
  category = "sql";
  description = none;
  versions = postgres_version "16" ∷ postgres_version "15" ∷ [];
  default_resources = record { milli_cpu = "500"; memory_mb = "512" };
  volume_spec = record { mount_path = "/data"; default_gib = none };
  ports = [];
  health_check = record { command = ""; interval = none; timeout = none; retries = none };
  conn_string_fmt = "";
  env_template = [];
  credential_policy = "";
  shell_command = "";
  command = none;
}

abbrev catalog : List Template
catalog = template_of "mysql" ∷ template_of "postgres" ∷ []

abbrev runtime : Runtime
runtime = record { trim = λ s. s; number = λ s. literal s }

abbrev older : Dialog
older = record (select_template catalog "postgres" (first_dialog catalog)) { version = "15" }

abbrev ready : Dialog
ready = record older {
  name = "main-db";
  server_id = "";
  size = "20";
  cpu = "500";
  memory = "512";
  schedule = "";
  retention = "7";
}

submit_provision-get_version_example :
    (v : TemplateVersion) × (get_version (λ s. s) catalog "postgres" "15" ≡ found v)
unfolding first_dialog select_template submit_provision provision_input
submit_provision-get_version_example =
    submit_provision-get_version (λ s. s) catalog runtime (some "c1") ready
      (provision_input runtime "c1" ready) (refl, (refl, tt))
      (typed "main-db" "" "20" "500" "512" "" "7" (
        versioned "15" (template_of "postgres")
          (picked "postgres" (template_of "postgres") mounted refl) refl refl))
      refl
