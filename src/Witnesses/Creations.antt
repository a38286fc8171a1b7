-- ===== src/Witnesses/Creations.antt =====
-- The creation of an app, and of a variable, at concrete forms.
use nixway_core.Prelude.{true, false, some, ◌≡◌, refl, String, Option, none, str_eq, if◌then◌else◌}
use nixway_core.Prelude.Int.{ℤ, pos}
use nixway_core.AppUpdate.Decode.{Decoder}
use nixway_core.CreateApp.Dialog.{
  Fields, docker_image, Runtime, literal, create_input, submit_create,
}
use nixway_core.CreateApp.Server.{handle_create}
use nixway_core.EnvVars.Dialog.{VarFields}
use nixway_core.EnvVars.Server.{Rows}
use nixway_core.EnvVars.Agree.{IsMirrored, submit_var-handle_create_var}
use nixway_core.CreateApp.Created.{asked, submit_create-handle_create}

abbrev runtime : Runtime
runtime = record { trim = λ s. s; number = λ s. literal s }

-- a decoder that reads two numbers
abbrev small_numbers : String → Option ℤ
small_numbers s =
    if str_eq s "8080" then some (pos 8080) else if str_eq s "2" then some (pos 2) else none

abbrev decoder : Decoder
decoder = record { int32 = small_numbers; is_uuid = λ s. str_eq s "i1" }

abbrev nginx : Fields
nginx = record {
  source = docker_image;
  name = "web";
  port = "8080";
  replicas = "2";
  health_check_path = "";
  repo = "";
  branch = "main";
  installation_id = "i1";
  repo_manual = false;
  image = "nginx";
  tag = "";
  image_manual = false;
}

submit_create-handle_create_example :
    handle_create decoder (create_input runtime nginx)
    ≡ some (asked decoder runtime docker_image nginx 8079 1)
unfolding submit_create
submit_create-handle_create_example =
    submit_create-handle_create decoder runtime nginx (create_input runtime nginx) 8079 1 refl refl
      refl refl

abbrev some_rows : Rows
some_rows = record {
  environment = λ slug. if str_eq slug "production" then some "e1" else none;
  variable = λ id. none;
  can_set = λ env key value. true;
}

abbrev api_key : VarFields
api_key = record { key = "API_KEY"; value = "secret"; existing = none }

submit_var-handle_create_var_example : IsMirrored (λ s. s) "production" some_rows api_key
submit_var-handle_create_var_example =
    submit_var-handle_create_var (λ s. s) "production" some_rows api_key refl refl
