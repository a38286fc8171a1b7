-- ===== src/Contract/Teams.antt =====
-- The handler in internal/api/router.go that each call of Endpoints/Teams.antt is meant for, and the
-- verdict of the route tables on it.
use nixway_core.Prelude.{String, [], ◌∷◌, some, ◌≡◌, refl}
use nixway_core.Endpoints.Types.{Platform}
use nixway_core.Endpoints.Teams.{
  TeamsCall, teams_request, list_teams, get_team, create_team, update_team, remove_team,
  list_members, update_role, remove_member, list_invites, create_invite, cancel_invite, list_tokens,
  create_token, revoke_token, list_audit,
}
use nixway_core.Router.Dispatch.{decided}

abbrev pub teams_handler : TeamsCall → String
teams_handler list_teams = "teamH.List"
teams_handler (get_team _) = "teamH.Get"
teams_handler (create_team _) = "teamH.Create"
teams_handler (update_team _ _) = "teamH.Update"
teams_handler (remove_team _) = "teamH.Delete"
teams_handler (list_members _) = "teamH.ListMembers"
teams_handler (update_role _ _ _) = "teamH.UpdateMember"
teams_handler (remove_member _ _) = "teamH.RemoveMember"
teams_handler (list_invites _) = "teamH.ListInvites"
teams_handler (create_invite _ _ _) = "teamH.CreateInvite"
teams_handler (cancel_invite _ _) = "teamH.CancelInvite"
teams_handler (list_tokens _) = "tokenH.List"
teams_handler (create_token _ _) = "tokenH.Create"
teams_handler (revoke_token _ _) = "tokenH.Revoke"
teams_handler (list_audit _ _) = "auditH.List"

pub teams_verdict :
    (p : Platform) (c : TeamsCall)
    → decided (teams_request p c).method (teams_request p c).parts ≡ some (teams_handler c ∷ [])
unfolding decided teams_request
teams_verdict p list_teams = refl
teams_verdict p (get_team _) = refl
teams_verdict p (create_team _) = refl
teams_verdict p (update_team _ _) = refl
teams_verdict p (remove_team _) = refl
teams_verdict p (list_members _) = refl
teams_verdict p (update_role _ _ _) = refl
teams_verdict p (remove_member _ _) = refl
teams_verdict p (list_invites _) = refl
teams_verdict p (create_invite _ _ _) = refl
teams_verdict p (cancel_invite _ _) = refl
teams_verdict p (list_tokens _) = refl
teams_verdict p (create_token _ _) = refl
teams_verdict p (revoke_token _ _) = refl
teams_verdict p (list_audit _ _) = refl
