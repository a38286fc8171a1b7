-- ===== src/Models.antt =====
-- The data that the API and the clients exchange: apps/web-v2/lib/types.ts. A field that may be
-- missing or `null` is an `Option`; numbers are natural.
pub mod Accounts
pub mod Servers
pub mod Clusters
pub mod Sources
pub mod Delivery
pub mod Databases
pub mod Tooling
pub mod Observability
use nixway_core.Prelude.{ℕ, String, Bool, List, Option}

-- A number stands as its JSON literal, where it may have a fraction or a sign.
abbrev pub Number : Type 0
Number = String

pub data Role : Type 0 where
  owner admin member_role : Role

abbrev pub role_name : Role → String
role_name owner = "owner"
role_name admin = "admin"
role_name member_role = "member"

pub data ServerRole : Type 0 where
  worker edge both : ServerRole

abbrev pub server_role_name : ServerRole → String
server_role_name worker = "worker"
server_role_name edge = "edge"
server_role_name both = "both"

pub data MetricRange : Type 0 where
  five_minutes one_hour one_day seven_days thirty_days : MetricRange

abbrev pub range_name : MetricRange → String
range_name five_minutes = "5m"
range_name one_hour = "1h"
range_name one_day = "24h"
range_name seven_days = "7d"
range_name thirty_days = "30d"

pub record Team : Type 0 where
  pub id : String
  pub name : String
  pub slug : String
  pub created_at : String
  pub updated_at : String

-- `placement_constraints`, which the clients pass on unread, is left out.
pub record App : Type 0 where
  pub id : String
  pub project_id : String
  pub name : String
  pub slug : String
  pub source_type : String
  pub github_installation_id : Option String
  pub repo_full_name : Option String
  pub branch : Option String
  pub root_path : Option String
  pub auto_deploy : Option Bool
  pub docker_image : Option String
  pub registry_credential_id : Option String
  pub builder : Option String
  pub dockerfile_path : Option String
  pub port : Option ℕ
  pub health_check_path : Option String
  pub replicas : Option ℕ
  pub placement_strategy : Option String
  pub pinned_server_ids : Option (List String)
  pub status : String
  pub resource_cpu_millicores : Option ℕ
  pub resource_memory_mb : Option ℕ
  pub cpu_limit_millicores : Option ℕ
  pub memory_limit_mb : Option ℕ
  pub custom_domain : Option String
  pub custom_domain_verified : Option Bool
  pub created_at : String
  pub updated_at : String

pub record TrafficBackend : Type 0 where
  pub id : String
  pub route_id : String
  pub deployment_id : String
  pub label : String
  pub weight : ℕ
  pub status : String
  pub created_at : String
  pub updated_at : String
  pub deployment_status : String
  pub replicas_ready : ℕ
  pub replicas_desired : ℕ
  pub commit_sha : String
  pub image_tag : String
