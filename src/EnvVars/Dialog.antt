-- ===== src/EnvVars/Dialog.antt =====
-- EnvVarDialog of apps/web-v2/components/apps/EnvVarsClient.tsx, and the environment that it is for.
use Prim.Native.Char.{code}
use nixway_core.Prelude.{
  ℕ, String, Bool, true, false, not, ◌&&◌, ◌||◌, List, [], ◌∷◌, Option, none, some, ◌==◌, ◌<>◌, leb,
  str_eq, truthy, any, if◌then◌else◌,
}
use nixway_core.Json.{str, Members, end, member}

abbrev pub reserved_keys : List String
reserved_keys =
    "PORT" ∷ "PLATFORM_PUBLIC_DOMAIN" ∷ "PLATFORM_PRIVATE_IP" ∷ "PLATFORM_PRIVATE_DOMAIN"
    ∷ "CLUSTER_NAME" ∷ "PROJECT_NAME" ∷ "APP_NAME" ∷ "ENVIRONMENT" ∷ "DEPLOY_ID" ∷ "GIT_SHA" ∷ []

-- the classes `[A-Za-z_]` and `[A-Za-z0-9_]`
abbrev pub is_key_start : ℕ → Bool
is_key_start c = (leb 65 c && leb c 90) || (leb 97 c && leb c 122) || c == 95

abbrev pub is_key_part : ℕ → Bool
is_key_part c = is_key_start c || (leb 48 c && leb c 57)

unfoldable pub all_key_parts : String → Bool
all_key_parts String.[] = true
all_key_parts (String.◌∷◌ c s) = is_key_part (code c) && all_key_parts s

-- `/^[A-Za-z_][A-Za-z0-9_]*$/.test(k)`
unfoldable pub is_key : String → Bool
unfolding all_key_parts
is_key String.[] = false
is_key (String.◌∷◌ c s) = is_key_start (code c) && all_key_parts s

-- the environment that is chosen first
abbrev pub first_slug : List String → String
first_slug [] = "production"
first_slug (s ∷ slugs) = if any (λ t. str_eq t "production") (s ∷ slugs) then "production" else s

-- `existing` is the id of the variable that is edited.
pub record VarFields : Type 0 where
  pub key : String
  pub value : String
  pub existing : Option String

pub data VarSubmission : Type 0 where
  refused : String → VarSubmission
  creates : Members → VarSubmission
  updates : String → Members → VarSubmission

-- the tests of a new key
abbrev pub key_error : String → Option String
key_error k =
    if not (truthy k)
    then some "Key is required."
    else if not (is_key k)
    then some
        "Keys must start with a letter or underscore and contain only letters, digits, and underscores."
    else if any (λ j. str_eq j k) reserved_keys
    then some (k <> " is reserved by the platform and is set automatically.")
    else none

module _ (trim : String → String) (environment : String) where
  -- the input of `create`
  abbrev pub var_input : VarFields → Members
  var_input f =
      member "environment" (str environment)
        (member "key" (str (trim f.key)) (member "value" (str f.value) end))

  -- `mutationFn`
  abbrev pub save : Option String → VarFields → VarSubmission
  save none f = creates (var_input f)
  save (some id) f = updates id (member "value" (str f.value) end)

  abbrev pub save_value : VarFields → VarSubmission
  save_value f = if not (truthy f.value) then refused "Value is required." else save f.existing f

  abbrev pub unless_error : Option String → VarSubmission → VarSubmission
  unless_error none s = s
  unless_error (some e) s = refused e

  -- `if (!isEdit)` and its tests
  abbrev pub checked : Option String → VarFields → VarSubmission
  checked none f = unless_error (key_error (trim f.key)) (save_value f)
  checked (some id) f = save_value f

  unfoldable pub submit_var : VarFields → VarSubmission
  submit_var f = checked f.existing f
