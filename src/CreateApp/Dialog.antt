-- ===== src/CreateApp/Dialog.antt =====
-- CreateAppDialog of apps/web-v2/components/apps/CreateAppDialog.tsx: its state and its submission.
use nixway_core.Prelude.{
  String, Bool, true, false, not, ◌&&◌, Option, none, some, ◌<>◌, truthy, or_text, if◌then◌else◌,
}
use nixway_core.Json.{Json, null, bool, num, str, Members, end, member}

pub data Source : Type 0 where
  github docker_image : Source

abbrev pub source_name : Source → String
source_name github = "github"
source_name docker_image = "docker_image"

abbrev pub is_github : Source → Bool
is_github github = true
is_github docker_image = false

-- the fields of the dialog
pub record Fields : Type 0 where
  pub source : Source
  pub name : String
  pub port : String
  pub replicas : String
  pub health_check_path : String
  pub repo : String
  pub branch : String
  pub installation_id : String
  pub repo_manual : Bool
  pub image : String
  pub tag : String
  pub image_manual : Bool

-- `Number(s)`: 0 or NaN, an infinity, or another number with its JSON literal
pub data Numeric : Type 0 where
  falsy infinite : Numeric
  literal : String → Numeric

-- `trim` of a string, and `Number(s)`
pub record Runtime : Type 0 where
  pub trim : String → String
  pub number : String → Numeric

-- `Number(s) || n` as JSON.stringify writes it
abbrev pub numeric_or : Numeric → String → Json
numeric_or falsy n = num n
numeric_or infinite n = null
numeric_or (literal l) n = num l

-- a member that JSON.stringify leaves out where its value is `undefined`
abbrev pub optional : String → Option String → Members → Members
optional key none ms = ms
optional key (some s) ms = member key (str s) ms

-- `s || undefined`
abbrev pub given : String → Option String
given s = if truthy s then some s else none

module _ (r : Runtime) where
  unfoldable pub initial_fields : Fields
  initial_fields = record {
    source = github;
    name = "";
    port = "3000";
    replicas = "1";
    health_check_path = "/";
    repo = "";
    branch = "main";
    installation_id = "";
    repo_manual = false;
    image = "";
    tag = "latest";
    image_manual = false;
  }

  unfoldable pub image_reference : Fields → String
  image_reference f =
      if f.image_manual
      then r.trim f.image
      else if truthy (r.trim f.image)
      then r.trim f.image <> (":" <> r.trim (or_text (some f.tag) "latest"))
      else ""

  abbrev pub installation : Fields → Option String
  installation f = if not f.repo_manual then given f.installation_id else none

  -- the members that depend on the source
  abbrev pub source_members : Source → Fields → Members → Members
  source_members github f ms = optional "github_installation_id" (installation f) (
      member "repo_full_name" (str (r.trim f.repo))
        (optional "branch" (given (r.trim f.branch)) ms))
  source_members docker_image f ms = member "docker_image" (str (image_reference f)) ms

  -- the object that `mutationFn` sends
  unfoldable pub create_input : Fields → Members
  unfolding image_reference
  create_input f = member "name" (str (r.trim f.name)) (
      member "source_type" (str (source_name f.source)) (
        source_members f.source f (
          member "port" (numeric_or (r.number f.port) "3000") (
            member "replicas" (numeric_or (r.number f.replicas) "1") (
              member "health_check_path" (str (or_text (some (r.trim f.health_check_path)) "/")) (
                member "builder" (str "auto") (
                  member "root_path" (str "/")
                    (member "auto_deploy" (bool (is_github f.source)) end))))))))

  pub data Submission : Type 0 where
    refused : String → Submission
    creates : Members → Submission

  unfoldable pub submit_create : Fields → Submission
  unfolding create_input
  submit_create f =
      if not (truthy (r.trim f.name))
      then refused "App name is required."
      else if is_github f.source && not (truthy (r.trim f.repo))
      then refused "GitHub repository is required (e.g. owner/name)."
      else if not (is_github f.source) && not (truthy (r.trim f.image))
      then refused "Docker image is required."
      else creates (create_input f)
