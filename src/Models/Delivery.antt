-- ===== src/Models/Delivery.antt =====
-- Builds, deployments and scaling of apps/web-v2/lib/types.ts.
use nixway_core.Prelude.{String, Bool, List, Option}
use nixway_core.Json.{Json}
use nixway_core.Models.{App, Number}

pub record Build : Type 0 where
  pub id : String
  pub app_id : String
  pub environment_id : String
  pub trigger_type : String
  pub commit_sha : String
  pub commit_message : Option String
  pub branch : Option String
  pub builder : Option String
  pub image_tag : Option String
  pub server_id : Option String
  pub status : String
  pub logs : Option String
  pub started_at : Option String
  pub completed_at : Option String
  pub created_at : String

pub record Deployment : Type 0 where
  pub id : String
  pub app_id : String
  pub environment_id : String
  pub build_id : String
  pub strategy : String
  pub replicas_desired : Number
  pub replicas_ready : Number
  pub status : String
  pub started_at : Option String
  pub completed_at : Option String
  pub error : Option String
  pub platform_domain : Option String
  pub created_at : String

pub record DeploymentTarget : Type 0 where
  pub id : String
  pub deployment_id : String
  pub server_id : String
  pub container_id : Option String
  pub status : String
  pub health_check_attempts : Option Number
  pub started_at : Option String
  pub healthy_at : Option String
  pub stopped_at : Option String
  pub error : Option String
  pub host_port : Option Number
  pub bind_address : Option String
  pub server_name : Option String
  pub public_ip : Option String

pub record Replica : Type 0 where
  pub target_id : String
  pub container_id : Option String
  pub server_id : String
  pub server_name : String
  pub agent_id : Option String

pub record PlacementConstraints : Type 0 where
  pub must_have : List (String × String)
  pub must_not_have : List (String × String)

pub record ScalingEvent : Type 0 where
  pub id : String
  pub app_id : String
  pub environment_id : Option String
  pub deployment_id : Option String
  pub actor_id : Option String
  pub actor_type : String
  pub event_type : String
  pub from_replicas : Number
  pub to_replicas : Number
  pub placement_strategy : String
  pub metric_name : Option String
  pub metric_value : Option Number
  pub rule_name : Option String
  pub message : String
  pub metadata : Option Json
  pub created_at : String

pub record ScaleResult : Type 0 where
  pub app : App
  pub event : ScalingEvent
  pub deployment : Option Deployment

pub record VerifyDomainResult : Type 0 where
  pub domain : String
  pub verified : Bool
  pub target : String
