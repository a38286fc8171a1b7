-- ===== src/TokenScopes/Dialog.antt =====
-- The form of CreateTokenDialog.tsx.
use nixway_core.Prelude.{
  String, Bool, true, false, List, [], ◌∷◌, ◌++◌, Option, none, some, ◌<>◌, truthy, not,
  if◌then◌else◌,
}

pub data Level : Type 0 where
  no_access read write : Level

pub data Resource : Type 0 where
  teams members invites tokens audit servers : Resource

abbrev pub resource_name : Resource → String
resource_name teams = "teams"
resource_name members = "members"
resource_name invites = "invites"
resource_name tokens = "tokens"
resource_name audit = "audit"
resource_name servers = "servers"

-- the keys of `RESOURCES`, in order
abbrev pub resource_list : List Resource
resource_list = teams ∷ members ∷ invites ∷ tokens ∷ audit ∷ servers ∷ []

-- what one turn of the loop pushes
unfoldable pub scopes_of : Resource → Level → List String
scopes_of r no_access = []
scopes_of r read = (resource_name r <> ":read") ∷ []
scopes_of r write = (resource_name r <> ":*") ∷ []

-- the loop of `levelsToScopes`
unfoldable pub collect : (Resource → Level) → List Resource → List String
unfolding scopes_of
collect levels [] = []
collect levels (r ∷ rs) = scopes_of r (levels r) ++ collect levels rs

unfoldable pub levels_to_scopes : Bool → (Resource → Level) → List String
unfolding collect
levels_to_scopes true levels = "*" ∷ []
levels_to_scopes false levels = collect levels resource_list

pub data Submitted : Type 0 where
  refused : String → Submitted
  creates : String → List String → Option String → Submitted

-- `handleSubmit`, with the input of the mutation; `trim` is the string method
module _ (trim : String → String) where
  unfoldable pub handle_submit : String → Bool → (Resource → Level) → String → Submitted
  handle_submit name super_admin levels expires_in =
      if not (truthy (trim name))
      then refused "Token name is required."
      else elim (levels_to_scopes super_admin levels) [
        | [] ↦ refused "Choose at least one scope, or enable Full admin."
        | scope ∷ scopes ↦
            creates (trim name) (scope ∷ scopes)
              (if truthy expires_in then some expires_in else none)
      ]
