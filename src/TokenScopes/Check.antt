-- ===== src/TokenScopes/Check.antt =====
-- The API's checks of scopes: TokenHasScope of internal/api/middleware/rbac.go and ValidTokenScope of
-- internal/model/model.go.
use Prim.Native.Char.{code}
use Prim.Native.String.{String, [], ◌∷◌}
use mathlib.Core.List.{List, [], ◌∷◌}
use nixway_core.Prelude.{Bool, true, false, ◌&&◌, ◌||◌, ◌==◌, str_eq, any, if◌then◌else◌}

-- `strings.HasPrefix(s, prefix)`
unfoldable pub has_prefix : String → String → Bool
has_prefix [] s = true
has_prefix (c ∷ p) [] = false
has_prefix (c ∷ p) (d ∷ s) = (code c == code d) && has_prefix p s

-- `strings.HasSuffix(s, suffix)`
unfoldable pub has_suffix : String → String → Bool
has_suffix suffix [] = str_eq suffix []
has_suffix suffix (c ∷ s) = str_eq suffix (c ∷ s) || has_suffix suffix s

-- `strings.TrimSuffix(s, suffix)`
unfoldable pub trim_suffix : String → String → String
trim_suffix suffix [] = []
trim_suffix suffix (c ∷ s) =
    let rest = trim_suffix suffix s in if str_eq suffix (c ∷ s) then [] else c ∷ rest

-- one turn of the loop of `TokenHasScope`
unfoldable pub grants : String → String → Bool
unfolding has_prefix has_suffix trim_suffix
grants required scope =
    (str_eq scope "*" || str_eq scope required)
    || (has_suffix ":*" scope && has_prefix (trim_suffix "*" scope) required)

unfoldable pub token_has_scope : List String → String → Bool
unfolding grants
token_has_scope scopes required = if str_eq required "" then true else any (grants required) scopes

-- `validTokenScopes`
abbrev valid_scopes : List String
valid_scopes =
    "*" ∷ "teams:*" ∷ "members:*" ∷ "invites:*" ∷ "tokens:*" ∷ "audit:*" ∷ "servers:*"
    ∷ "teams:read" ∷ "teams:write" ∷ "members:read" ∷ "members:write" ∷ "invites:read"
    ∷ "invites:write" ∷ "tokens:read" ∷ "tokens:write" ∷ "audit:read" ∷ "servers:read"
    ∷ "servers:write" ∷ []

unfoldable pub valid_token_scope : String → Bool
valid_token_scope scope = any (str_eq scope) valid_scopes
