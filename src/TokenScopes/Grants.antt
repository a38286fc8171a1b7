-- ===== src/TokenScopes/Grants.antt =====
-- What the scopes of a new token allow.
use nixway_core.Prelude.{
  String, Bool, true, false, ◌||◌, ◌&&◌, List, [], ◌∷◌, ◌++◌, ◌<>◌, ◌≡◌, refl, ◌∙◌, arith, any, All,
  All-append, truthy,
}
use nixway_core.TokenScopes.Dialog.{
  Level, no_access, read, write, Resource, teams, members, invites, tokens, audit, servers,
  resource_name, resource_list, scopes_of, collect, levels_to_scopes,
}
use nixway_core.TokenScopes.Check.{grants, token_has_scope, valid_token_scope}

abbrev pub can_read : Level → Bool
can_read no_access = false
can_read read = true
can_read write = true

abbrev pub can_write : Level → Bool
can_write write = true
can_write _ = false

abbrev same : Resource → Resource → Bool
same teams teams = true
same members members = true
same invites invites = true
same tokens tokens = true
same audit audit = true
same servers servers = true
same _ _ = false

-- the scopes that the handlers require
abbrev pub read_scope : Resource → String
read_scope r = resource_name r <> ":read"

abbrev pub write_scope : Resource → String
write_scope r = resource_name r <> ":write"

-- What the scopes of one resource allow: that resource at its level.
abbrev Exact : Resource → Level → Resource → Type 0
Exact r level wanted =
    (any (grants (read_scope wanted)) (scopes_of r level) ≡ (same r wanted && can_read level))
    × (any (grants (write_scope wanted)) (scopes_of r level) ≡ (same r wanted && can_write level))

every :
    (P : Resource → Type 0)
    → P teams
    → P members
    → P invites
    → P tokens
    → P audit
    → P servers
    → (r : Resource) → P r
every P a b c d e f teams = a
every P a b c d e f members = b
every P a b c d e f invites = c
every P a b c d e f tokens = d
every P a b c d e f audit = e
every P a b c d e f servers = f

scopes_of-Exact : (r : Resource) (level : Level) (wanted : Resource) → Exact r level wanted
unfolding grants scopes_of
scopes_of-Exact teams no_access wanted =
    every (Exact teams no_access) (refl, refl) (refl, refl) (refl, refl) (refl, refl) (refl, refl)
      (refl, refl) wanted
scopes_of-Exact teams read wanted =
    every (Exact teams read) (refl, refl) (refl, refl) (refl, refl) (refl, refl) (refl, refl)
      (refl, refl) wanted
scopes_of-Exact teams write wanted =
    every (Exact teams write) (refl, refl) (refl, refl) (refl, refl) (refl, refl) (refl, refl)
      (refl, refl) wanted
scopes_of-Exact members no_access wanted =
    every (Exact members no_access) (refl, refl) (refl, refl) (refl, refl) (refl, refl) (refl, refl)
      (refl, refl) wanted
scopes_of-Exact members read wanted =
    every (Exact members read) (refl, refl) (refl, refl) (refl, refl) (refl, refl) (refl, refl)
      (refl, refl) wanted
scopes_of-Exact members write wanted =
    every (Exact members write) (refl, refl) (refl, refl) (refl, refl) (refl, refl) (refl, refl)
      (refl, refl) wanted
scopes_of-Exact invites no_access wanted =
    every (Exact invites no_access) (refl, refl) (refl, refl) (refl, refl) (refl, refl) (refl, refl)
      (refl, refl) wanted
scopes_of-Exact invites read wanted =
    every (Exact invites read) (refl, refl) (refl, refl) (refl, refl) (refl, refl) (refl, refl)
      (refl, refl) wanted
scopes_of-Exact invites write wanted =
    every (Exact invites write) (refl, refl) (refl, refl) (refl, refl) (refl, refl) (refl, refl)
      (refl, refl) wanted
scopes_of-Exact tokens no_access wanted =
    every (Exact tokens no_access) (refl, refl) (refl, refl) (refl, refl) (refl, refl) (refl, refl)
      (refl, refl) wanted
scopes_of-Exact tokens read wanted =
    every (Exact tokens read) (refl, refl) (refl, refl) (refl, refl) (refl, refl) (refl, refl)
      (refl, refl) wanted
scopes_of-Exact tokens write wanted =
    every (Exact tokens write) (refl, refl) (refl, refl) (refl, refl) (refl, refl) (refl, refl)
      (refl, refl) wanted
scopes_of-Exact audit no_access wanted =
    every (Exact audit no_access) (refl, refl) (refl, refl) (refl, refl) (refl, refl) (refl, refl)
      (refl, refl) wanted
scopes_of-Exact audit read wanted =
    every (Exact audit read) (refl, refl) (refl, refl) (refl, refl) (refl, refl) (refl, refl)
      (refl, refl) wanted
scopes_of-Exact audit write wanted =
    every (Exact audit write) (refl, refl) (refl, refl) (refl, refl) (refl, refl) (refl, refl)
      (refl, refl) wanted
scopes_of-Exact servers no_access wanted =
    every (Exact servers no_access) (refl, refl) (refl, refl) (refl, refl) (refl, refl) (refl, refl)
      (refl, refl) wanted
scopes_of-Exact servers read wanted =
    every (Exact servers read) (refl, refl) (refl, refl) (refl, refl) (refl, refl) (refl, refl)
      (refl, refl) wanted
scopes_of-Exact servers write wanted =
    every (Exact servers write) (refl, refl) (refl, refl) (refl, refl) (refl, refl) (refl, refl)
      (refl, refl) wanted

any-append_scopes :
    (p : String → Bool) (xs ys : List String) → any p (xs ++ ys) ≡ (any p xs || any p ys)
any-append_scopes p [] ys = refl
any-append_scopes p (x ∷ xs) ys = ground (arith, any-append_scopes p xs ys)

-- the resource_list of a list that are the wanted one, at a level that allows
abbrev allowed : (Level → Bool) → (Resource → Level) → Resource → List Resource → Bool
allowed can levels wanted rs = any (λ r. same r wanted && can (levels r)) rs

collect-Exact :
    (levels : Resource → Level) (wanted : Resource) (rs : List Resource)
    → (any (grants (read_scope wanted)) (collect levels rs) ≡ allowed can_read levels wanted rs)
      × (any (grants (write_scope wanted)) (collect levels rs) ≡ allowed can_write levels wanted rs)
unfolding collect
collect-Exact levels wanted [] = (refl, refl)
collect-Exact levels wanted (r ∷ rs) =
    let rest = collect-Exact levels wanted rs in
    let here = scopes_of-Exact r (levels r) wanted in
    (
      any-append_scopes (grants (read_scope wanted)) (scopes_of r (levels r)) (collect levels rs)
          ∙ rw (here.0, rest.0) refl,
      any-append_scopes (grants (write_scope wanted)) (scopes_of r (levels r)) (collect levels rs)
          ∙ rw (here.1, rest.1) refl,
    )

allowed-resource_list :
    (can : Level → Bool) (levels : Resource → Level) (wanted : Resource)
    → allowed can levels wanted resource_list ≡ can (levels wanted)
allowed-resource_list can levels wanted =
    every (λ w. allowed can levels w resource_list ≡ can (levels w)) (ground arith) (ground arith)
      (ground arith) (ground arith) (ground arith) (ground arith) wanted

not_empty :
    (wanted : Resource) → (truthy (read_scope wanted) ≡ true) × (truthy (write_scope wanted) ≡ true)
not_empty wanted =
    every (λ w. (truthy (read_scope w) ≡ true) × (truthy (write_scope w) ≡ true)) (refl, refl)
      (refl, refl) (refl, refl) (refl, refl) (refl, refl) (refl, refl) wanted

-- A token made with given levels passes the API's check for reading a resource exactly if its level
-- is read or write, and for writing exactly if it is write; the level of one resource never opens
-- another.
pub levels_to_scopes-grants :
    (levels : Resource → Level) (wanted : Resource)
    → (token_has_scope (levels_to_scopes false levels) (read_scope wanted)
        ≡ can_read (levels wanted))
      × (token_has_scope (levels_to_scopes false levels) (write_scope wanted)
          ≡ can_write (levels wanted))
unfolding token_has_scope levels_to_scopes
levels_to_scopes-grants levels wanted =
    let (r, w) = not_empty wanted in
    let (cr, cw) = collect-Exact levels wanted resource_list in
    (
      ground (arith, allowed-resource_list can_read levels wanted),
      ground (arith, allowed-resource_list can_write levels wanted),
    )

scopes_of-AllValid :
    (r : Resource) (level : Level) → All (λ s. valid_token_scope s ≡ true) (scopes_of r level)
unfolding scopes_of valid_token_scope
scopes_of-AllValid teams no_access = tt
scopes_of-AllValid teams read = (refl, tt)
scopes_of-AllValid teams write = (refl, tt)
scopes_of-AllValid members no_access = tt
scopes_of-AllValid members read = (refl, tt)
scopes_of-AllValid members write = (refl, tt)
scopes_of-AllValid invites no_access = tt
scopes_of-AllValid invites read = (refl, tt)
scopes_of-AllValid invites write = (refl, tt)
scopes_of-AllValid tokens no_access = tt
scopes_of-AllValid tokens read = (refl, tt)
scopes_of-AllValid tokens write = (refl, tt)
scopes_of-AllValid audit no_access = tt
scopes_of-AllValid audit read = (refl, tt)
scopes_of-AllValid audit write = (refl, tt)
scopes_of-AllValid servers no_access = tt
scopes_of-AllValid servers read = (refl, tt)
scopes_of-AllValid servers write = (refl, tt)

collect-AllValid :
    (levels : Resource → Level) (rs : List Resource)
    → All (λ s. valid_token_scope s ≡ true) (collect levels rs)
unfolding collect
collect-AllValid levels [] = tt
collect-AllValid levels (r ∷ rs) =
    All-append (λ s. valid_token_scope s ≡ true) (scopes_of r (levels r)) (collect levels rs)
      (scopes_of-AllValid r (levels r)) (collect-AllValid levels rs)

-- Every scope that the dialog asks for is one that the API accepts, for a full admin too.
pub levels_to_scopes-AllValid :
    (super_admin : Bool) (levels : Resource → Level)
    → All (λ s. valid_token_scope s ≡ true) (levels_to_scopes super_admin levels)
unfolding levels_to_scopes
levels_to_scopes-AllValid true levels = unfold valid_token_scope in (refl, tt)
levels_to_scopes-AllValid false levels = collect-AllValid levels resource_list
