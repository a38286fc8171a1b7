-- ===== src/Models/Sources.antt =====
-- Where code and images come from, and secrets of apps/web-v2/lib/types.ts.
use nixway_core.Prelude.{String, Bool, Option}
use nixway_core.Models.{Number}

pub record AppEnvVar : Type 0 where
  pub id : String
  pub app_id : String
  pub environment_id : String
  pub key : String
  pub created_at : String
  pub updated_at : String

pub record GithubInstallation : Type 0 where
  pub id : String
  pub github_app_id : String
  pub installation_id : Number
  pub account_login : String
  pub account_type : String
  pub target_type : String
  pub suspended_at : Option String
  pub created_at : String
  pub updated_at : String

pub record GithubRepo : Type 0 where
  pub id : Number
  pub name : String
  pub full_name : String
  pub is_private : Bool
  pub default_branch : String
  pub clone_url : String

pub record GithubApp : Type 0 where
  pub id : String
  pub app_id : Number
  pub app_name : String
  pub app_slug : String
  pub html_url : String
  pub created_at : String

pub data RegistryType : Type 0 where
  registry_dockerhub registry_ghcr registry_ecr registry_generic : RegistryType

abbrev pub registry_type_name : RegistryType → String
registry_type_name registry_dockerhub = "dockerhub"
registry_type_name registry_ghcr = "ghcr"
registry_type_name registry_ecr = "ecr"
registry_type_name registry_generic = "generic"

pub record RegistryCredential : Type 0 where
  pub id : String
  pub team_id : String
  pub name : String
  pub registry_type : RegistryType
  pub registry_url : String
  pub username : String
  pub region : Option String
  pub validated_at : Option String
  pub created_at : String
  pub updated_at : String

pub record DockerHubImage : Type 0 where
  pub name : String
  pub description : String
  pub is_official : Bool
  pub star_count : Number
  pub pull_count : Option Number

pub record DockerHubTag : Type 0 where
  pub name : String
  pub size : Option Number
  pub last_updated : Option String

pub record Secret : Type 0 where
  pub id : String
  pub team_id : String
  pub environment : String
  pub key : String
  pub version : Number
  pub revealed_at : Option String
  pub created_at : String
  pub updated_at : String
