-- ===== src/Session/Guards.antt =====
-- What the guards and the choice of the team promise.
use nixway_core.Prelude.{
  String, Bool, true, List, [], ◌∷◌, Option, none, some, ◌≡◌, refl, ◌⊎◌, inl, inr, arith, str_eq,
  str_eq_refl, truthy, find, any, or_else, Bool-cases, Option-cases, ap, sym, eq_iff,
}
use nixway_core.Json.{Json}
use nixway_core.Models.{Team}
use nixway_core.Http.Types.{Response}
use nixway_core.Session.User.{
  proceed, redirect, get_current_user, is_user, require_user, require_guest,
}
use nixway_core.Session.Teams.{TeamContext, from_cookie, team_context, switch_to}

-- For every request exactly one of the two guards lets the page go on: the guard of a user's page
-- with the user, or that of a guest's page; the other one redirects.
pub guards-exclude :
    (parse : String → Option Json) (truthy_value : Json → Bool) (cookie : Option String)
    (res : Option Response)
    → ((require_user parse truthy_value cookie res
          ≡ proceed (get_current_user parse truthy_value cookie res))
        × (require_guest parse truthy_value cookie res ≡ redirect "/dashboard"))
      ⊎ ((require_user parse truthy_value cookie res ≡ redirect "/login")
          × (require_guest parse truthy_value cookie res ≡ proceed tt))
unfolding require_user require_guest
guards-exclude parse truthy_value cookie res =
    elim (Bool-cases
      (is_user parse truthy_value (get_current_user parse truthy_value cookie res))) [
        | inl user ↦ inl (rw user refl, rw user refl)
        | inr guest ↦ inr (rw guest refl, rw guest refl)
      ]

abbrev pub has_team : List Team → String → Bool
has_team teams id = any (λ t. str_eq (Team.id t) id) teams

-- the first team of an id that the list has
find_team :
    (teams : List Team) (id : String)
    → has_team teams id ≡ true
    → (t : Team) × ((find (λ u. str_eq (Team.id u) id) teams ≡ some t) × (t.id ≡ id))
find_team [] id h = absurd (ground arith)
find_team (u ∷ us) id h = elim (Bool-cases (str_eq u.id id)) [
  | inl here ↦ (u, (rw here refl, ground (arith, eq_iff u.id id)))
  | inr other ↦ let (t, (e, k)) = find_team us id (ground arith) in (t, (rw other e, k))
]

find-has_team :
    (teams : List Team) (id : String) (t : Team)
    → find (λ u. str_eq (Team.id u) id) teams ≡ some t
    → has_team teams t.id ≡ true
find-has_team [] id t h = absurd cc
find-has_team (u ∷ us) id t h = elim (Bool-cases (str_eq u.id id)) [
  | inl here ↦ let e : u ≡ t = ground arith in rw (sym (ap Team.id e), str_eq_refl u.id) refl
  | inr other ↦
      let later : has_team us t.id ≡ true = find-has_team us id t (ground arith) in ground arith
]

-- the id of the active team
abbrev pub active_id : TeamContext → Option String
active_id c = elim c.active_team [ none ↦ none | some t ↦ some t.id ]

from_cookie-has_team :
    (teams : List Team) (cookie : Option String) (t : Team)
    → from_cookie teams cookie ≡ some t
    → has_team teams t.id ≡ true
from_cookie-has_team teams none t h = absurd cc
from_cookie-has_team teams (some id) t h = elim (Bool-cases (truthy id)) [
  | inl given ↦ find-has_team teams id t (ground arith)
  | inr empty ↦ absurd (ground arith)
]

-- A user with teams always has an active one, which is one of them, whatever the cookie says.
pub active_team-listed :
    (t : Team) (ts : List Team) (cookie : Option String)
    → (id : String) × ((active_id (team_context (t ∷ ts) cookie) ≡ some id)
        × (has_team (t ∷ ts) id ≡ true))
unfolding team_context
active_team-listed t ts cookie = elim (Option-cases (from_cookie (t ∷ ts) cookie)) [
  | inl absent ↦ (t.id, (rw absent refl, rw (str_eq_refl t.id) refl))
  | inr (u, found) ↦ (u.id, (rw found refl, from_cookie-has_team (t ∷ ts) cookie u found))
]

context_of_id :
    (t : Team) (ts : List Team) (id : String)
    → truthy id ≡ true
    → has_team (t ∷ ts) id ≡ true
    → active_id (team_context (t ∷ ts) (some id)) ≡ some id
unfolding team_context
context_of_id t ts id given h =
    let (u, (found, e)) = find_team (t ∷ ts) id h in
    let chosen : from_cookie (t ∷ ts) (some id) ≡ some u = rw given found in rw chosen (ap some e)

-- Switching to a team that the user has makes it the active one on the next render, whether or not
-- the cookie had to be written. The team's id is not empty.
pub switch_to-active :
    (t : Team) (ts : List Team) (cookie : Option String) (id : String)
    → truthy id ≡ true
    → has_team (t ∷ ts) id ≡ true
    → active_id
        (team_context (t ∷ ts) (switch_to id (team_context (t ∷ ts) cookie).active_team cookie))
      ≡ some id
unfolding switch_to team_context
switch_to-active t ts cookie id given h =
    let a = or_else (from_cookie (t ∷ ts) cookie) t in
    elim (Bool-cases (str_eq id a.id)) [
      | inl same ↦ rw same (ap some (sym ((eq_iff id a.id).0 same)))
      | inr other ↦ rw other (context_of_id t ts id given h)
    ]
