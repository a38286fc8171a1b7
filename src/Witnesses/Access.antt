-- ===== src/Witnesses/Access.antt =====
-- Token scopes, guards and teams at concrete inputs.
use nixway_core.Prelude.{String, true, false, [], ◌∷◌, none, some, ◌≡◌, refl}
use nixway_core.Models.{Team}
use nixway_core.TokenScopes.Dialog.{
  Level, no_access, read, write, Resource, teams, servers, levels_to_scopes,
}
use nixway_core.TokenScopes.Check.{token_has_scope}
use nixway_core.TokenScopes.Grants.{levels_to_scopes-grants}
use nixway_core.Session.Teams.{team_context, switch_to}
use nixway_core.Session.Guards.{active_id, has_team, active_team-listed, switch_to-active}

abbrev some_levels : Resource → Level
some_levels teams = read
some_levels servers = write
some_levels _ = no_access

levels_to_scopes-grants_example :
    (token_has_scope (levels_to_scopes false some_levels) "servers:read" ≡ true)
    × (token_has_scope (levels_to_scopes false some_levels) "servers:write" ≡ true)
levels_to_scopes-grants_example = levels_to_scopes-grants some_levels servers

abbrev team : String → Team
team id = record { id = id; name = id; slug = id; created_at = ""; updated_at = "" }

active_team-listed_example :
    (id : String) × ((active_id (team_context (team "t1" ∷ team "t2" ∷ []) (some "t3")) ≡ some id)
      × (has_team (team "t1" ∷ team "t2" ∷ []) id ≡ true))
active_team-listed_example = active_team-listed (team "t1") (team "t2" ∷ []) (some "t3")

switch_to-active_example :
    active_id (
      team_context
        (team "t1" ∷ team "t2" ∷ [])
        (switch_to "t2" (team_context (team "t1" ∷ team "t2" ∷ []) none).active_team none))
    ≡ some "t2"
switch_to-active_example = switch_to-active (team "t1") (team "t2" ∷ []) none "t2" refl refl
