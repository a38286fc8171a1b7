-- ===== src/Endpoints/Teams.antt =====
-- Calls of teamsApi, membersApi, invitesApi, tokensApi and auditApi, apps/web-v2/lib/api.ts lines 168 to 231. An input object that
-- a caller passes stands as the members of its JSON.
use nixway_core.Prelude.{ℕ, String, [], ◌∷◌, ◌++◌, Option, none, some}
use nixway_core.Json.{str, obj, Members, end, member}
use nixway_core.Http.Types.{get, post, put, delete}
use nixway_core.Models.{Role, role_name}
use nixway_core.Endpoints.Types.{
  arg, lit, Request, Platform, Params, query_of, set_text, set_nonzero,
}

-- `AuditFilters`
pub record AuditFilters : Type 0 where
  pub action : Option String
  pub resource_type : Option String
  pub actor_id : Option String
  pub before : Option String
  pub page_size : Option ℕ

abbrev pub audit_params : Platform → AuditFilters → Params
audit_params p f =
    set_text "action" f.action
    ++ (set_text "resource_type" f.resource_type
        ++ (set_text "actor_id" f.actor_id
            ++ (set_text "before" f.before ++ set_nonzero p "page_size" f.page_size)))

pub data TeamsCall : Type 0 where
  list_teams : TeamsCall
  get_team : String → TeamsCall
  create_team : String → TeamsCall
  update_team : String → String → TeamsCall
  remove_team : String → TeamsCall
  list_members : String → TeamsCall
  update_role : String → String → Role → TeamsCall
  remove_member : String → String → TeamsCall
  list_invites : String → TeamsCall
  create_invite : String → String → Role → TeamsCall
  cancel_invite : String → String → TeamsCall
  list_tokens : String → TeamsCall
  create_token : String → Members → TeamsCall
  revoke_token : String → String → TeamsCall
  list_audit : String → AuditFilters → TeamsCall

module _ (p : Platform) where
  unfoldable pub teams_request : TeamsCall → Request
  teams_request list_teams = record {
    method = get;
    parts = lit "teams" ∷ [];
    query = none;
    body = none;
  }
  teams_request (get_team id) = record {
    method = get;
    parts = lit "teams" ∷ arg id ∷ [];
    query = none;
    body = none;
  }
  teams_request (create_team name) = record {
    method = post;
    parts = lit "teams" ∷ [];
    query = none;
    body = some (obj (member "name" (str name) end));
  }
  teams_request (update_team id name) = record {
    method = put;
    parts = lit "teams" ∷ arg id ∷ [];
    query = none;
    body = some (obj (member "name" (str name) end));
  }
  teams_request (remove_team id) = record {
    method = delete;
    parts = lit "teams" ∷ arg id ∷ [];
    query = none;
    body = none;
  }
  teams_request (list_members team_id) = record {
    method = get;
    parts = lit "teams" ∷ arg team_id ∷ lit "members" ∷ [];
    query = none;
    body = none;
  }
  teams_request (update_role team_id user_id role) = record {
    method = put;
    parts = lit "teams" ∷ arg team_id ∷ lit "members" ∷ arg user_id ∷ [];
    query = none;
    body = some (obj (member "role" (str (role_name role)) end));
  }
  teams_request (remove_member team_id user_id) = record {
    method = delete;
    parts = lit "teams" ∷ arg team_id ∷ lit "members" ∷ arg user_id ∷ [];
    query = none;
    body = none;
  }
  teams_request (list_invites team_id) = record {
    method = get;
    parts = lit "teams" ∷ arg team_id ∷ lit "invites" ∷ [];
    query = none;
    body = none;
  }
  teams_request (create_invite team_id email role) = record {
    method = post;
    parts = lit "teams" ∷ arg team_id ∷ lit "invites" ∷ [];
    query = none;
    body = some (obj (member "email" (str email) (member "role" (str (role_name role)) end)));
  }
  teams_request (cancel_invite team_id invite_id) = record {
    method = delete;
    parts = lit "teams" ∷ arg team_id ∷ lit "invites" ∷ arg invite_id ∷ [];
    query = none;
    body = none;
  }
  teams_request (list_tokens team_id) = record {
    method = get;
    parts = lit "teams" ∷ arg team_id ∷ lit "tokens" ∷ [];
    query = none;
    body = none;
  }
  teams_request (create_token team_id input) = record {
    method = post;
    parts = lit "teams" ∷ arg team_id ∷ lit "tokens" ∷ [];
    query = none;
    body = some (obj input);
  }
  teams_request (revoke_token team_id token_id) = record {
    method = delete;
    parts = lit "teams" ∷ arg team_id ∷ lit "tokens" ∷ arg token_id ∷ [];
    query = none;
    body = none;
  }
  teams_request (list_audit team_id filters) = record {
    method = get;
    parts = lit "teams" ∷ arg team_id ∷ lit "audit-logs" ∷ [];
    query = query_of p (audit_params p filters);
    body = none;
  }
