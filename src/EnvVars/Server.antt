-- ===== src/EnvVars/Server.antt =====
-- AppEnvVarHandler of internal/api/handler/app_env_var.go: Create and Update.
use nixway_core.Prelude.{
  ℕ, String, Bool, true, not, ◌&&◌, List, [], ◌∷◌, Option, none, some, str_eq, truthy, any,
  if◌then◌else◌,
}
use nixway_core.Json.{Members, end, member, get_member}
use nixway_core.AppUpdate.Decode.{◌>>=◌, as_string}
use nixway_core.EnvVars.Dialog.{is_key}

-- `reservedEnvKeys`
abbrev pub reserved_env_keys : List String
reserved_env_keys =
    "PORT" ∷ "PLATFORM_PUBLIC_DOMAIN" ∷ "PLATFORM_PRIVATE_IP" ∷ "PLATFORM_PRIVATE_DOMAIN"
    ∷ "CLUSTER_NAME" ∷ "PROJECT_NAME" ∷ "APP_NAME" ∷ "ENVIRONMENT" ∷ "DEPLOY_ID" ∷ "GIT_SHA" ∷ []

-- The empty text means valid. The pattern is the one of the dialog.
unfoldable pub validate_env_key : String → String
unfolding is_key
validate_env_key key =
    if str_eq key ""
    then "key is required"
    else if not (is_key key)
    then "key must match ^[A-Za-z_][A-Za-z0-9_]*$"
    else if any (λ j. str_eq j key) reserved_env_keys
    then "key is reserved by the platform and cannot be set"
    else ""

-- what the handler does besides its answer, in order
pub data Effect : Type 0 where
  sets : String → String → String → Effect
  audits : String → Effect
  redeploys : String → Effect

pub data Answer : Type 0 where
  fails : ℕ → String → Answer
  done : ℕ → List Effect → Answer

-- The rows that the handler looks up, for the app of the path: the id of an environment by its slug,
-- the environment and the key of a variable by its id, and whether a value can be stored.
pub record Rows : Type 0 where
  pub environment : String → Option String
  pub variable : String → Option (String × String)
  pub can_set : String → String → String → Bool

abbrev fields : List String
fields = "environment" ∷ "key" ∷ "value" ∷ []

abbrev pub all_known : List String → Members → Bool
all_known names end = true
all_known names (member key v ms) = any (λ f. str_eq f key) names && all_known names ms

abbrev decode : Members → Option (String × String × String)
decode ms = if not (all_known fields ms) then none else do
  environment ← as_string (get_member "environment" ms)
  key ← as_string (get_member "key" ms)
  value ← as_string (get_member "value" ms)
  some (environment, key, value)

abbrev decode_value : Members → Option String
decode_value ms =
    if not (all_known ("value" ∷ []) ms) then none else as_string (get_member "value" ms)

module _ (rows : Rows) where
  -- `resolveEnv`
  abbrev pub resolve_env : String → Option String
  resolve_env slug = rows.environment (if str_eq slug "" then "production" else slug)

  -- `Set`, the audit entry and the redeploy
  abbrev pub set_var : ℕ → String → String → String → String → Answer
  set_var status action env key value =
      if rows.can_set env key value
      then done status (sets env key value ∷ audits action ∷ redeploys env ∷ [])
      else fails 500 "internal server error"

  abbrev pub create_valid : String → String → String → Answer
  create_valid environment key value = elim (resolve_env environment) [
    | none ↦ fails 404 "app or environment not found"
    | some env ↦ set_var 201 "app_env_var.create" env key value
  ]

  -- the handlers behind the path's ids
  unfoldable pub handle_create_var : Members → Answer
  unfolding validate_env_key
  handle_create_var ms = elim (decode ms) [
    | none ↦ fails 400 "invalid request body"
    | some (environment, key, value) ↦
        if truthy (validate_env_key key)
        then fails 400 (validate_env_key key)
        else create_valid environment key value
  ]

  unfoldable pub handle_update_var : String → Members → Answer
  handle_update_var var_id ms = elim (decode_value ms) [
    | none ↦ fails 400 "invalid request body"
    | some value ↦ elim (rows.variable var_id) [
      | none ↦ fails 404 "env var not found"
      | some (env, key) ↦ set_var 200 "app_env_var.update" env key value
    ]
  ]
