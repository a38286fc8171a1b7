-- ===== src/Models/Accounts.antt =====
-- People, invitations, tokens and the audit log of apps/web-v2/lib/types.ts.
use nixway_core.Prelude.{String, Bool, List, Option}
use nixway_core.Json.{Json}
use nixway_core.Models.{Role}

pub record User : Type 0 where
  pub id : String
  pub email : String
  pub name : String
  pub email_verified : Option Bool
  pub created_at : Option String
  pub updated_at : Option String

pub record TeamMember : Type 0 where
  pub id : String
  pub team_id : String
  pub user_id : String
  pub role : Role
  pub email : String
  pub user_name : String
  pub created_at : String

pub record TeamInvite : Type 0 where
  pub id : String
  pub team_id : String
  pub email : String
  pub role : Role
  pub inviter_name : Option String
  pub expires_at : String
  pub created_at : String

pub data ActorType : Type 0 where
  actor_user actor_system actor_api_token : ActorType

abbrev pub actor_type_name : ActorType → String
actor_type_name actor_user = "user"
actor_type_name actor_system = "system"
actor_type_name actor_api_token = "api_token"

pub record ApiToken : Type 0 where
  pub id : String
  pub team_id : String
  pub user_id : String
  pub name : String
  pub scopes : List String
  pub last_used_at : Option String
  pub expires_at : Option String
  pub created_at : String
  pub token : Option String

pub record AuditLog : Type 0 where
  pub id : String
  pub team_id : String
  pub actor_id : Option String
  pub actor_type : ActorType
  pub actor_name : Option String
  pub actor_email : Option String
  pub action : String
  pub resource_type : String
  pub resource_id : Option String
  pub metadata : Json
  pub ip_address : String
  pub created_at : String
