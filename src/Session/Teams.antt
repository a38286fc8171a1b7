-- ===== src/Session/Teams.antt =====
-- The active team.
use nixway_core.Prelude.{
  String, List, [], ◌∷◌, Option, none, some, str_eq, truthy, find, or_else, if◌then◌else◌,
}
use nixway_core.Models.{Team}
use nixway_core.Http.Types.{Outcome}
use nixway_core.Http.Server.{try_get}

pub record TeamContext : Type 0 where
  pub active_team : Option Team
  pub teams : List Team

abbrev pub team_cookie : String
team_cookie = "nixway-team"

-- `cookieId ? teams.find((t) => t.id === cookieId) : undefined`
abbrev pub from_cookie : List Team → Option String → Option Team
from_cookie teams none = none
from_cookie teams (some id) = if truthy id then find (λ t. str_eq (Team.id t) id) teams else none

-- `getTeamContext` behind the list of teams; `cookie` is the value of the cookie
unfoldable pub team_context : List Team → Option String → TeamContext
team_context [] cookie = record { active_team = none; teams = [] }
team_context (t ∷ ts) cookie = record {
  active_team = some (or_else (from_cookie (t ∷ ts) cookie) t);
  teams = t ∷ ts;
}

-- `getTeamContext`, with `safeListTeams`
unfoldable pub get_team_context : Outcome (List Team) → Option String → TeamContext
unfolding team_context try_get
get_team_context listed cookie = team_context (try_get listed []) cookie

-- `switchTo`: the new value of the cookie, or the old one where nothing is written
unfoldable pub switch_to : String → Option Team → Option String → Option String
switch_to team_id none cookie = some team_id
switch_to team_id (some active) cookie = if str_eq team_id active.id then cookie else some team_id
