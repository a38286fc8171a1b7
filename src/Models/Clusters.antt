-- ===== src/Models/Clusters.antt =====
-- Clusters, projects and environments of apps/web-v2/lib/types.ts.
use nixway_core.Prelude.{String, Bool, Option}
use nixway_core.Models.{Number}

pub data ClusterStatus : Type 0 where
  cluster_active cluster_degraded cluster_error cluster_provisioning : ClusterStatus

abbrev pub cluster_status_name : ClusterStatus → String
cluster_status_name cluster_active = "active"
cluster_status_name cluster_degraded = "degraded"
cluster_status_name cluster_error = "error"
cluster_status_name cluster_provisioning = "provisioning"

pub record Cluster : Type 0 where
  pub id : String
  pub team_id : String
  pub name : String
  pub slug : String
  pub description : String
  pub region : String
  pub cidr : String
  pub status : String
  pub created_at : String
  pub updated_at : String

pub record ClusterMember : Type 0 where
  pub id : String
  pub cluster_id : String
  pub server_id : String
  pub wireguard_ip : String
  pub public_key : Option String
  pub status : String
  pub server_name : Option String
  pub server_hostname : Option String
  pub created_at : String

pub record MeshPeer : Type 0 where
  pub id : String
  pub member_id : String
  pub peer_member_id : String
  pub status : String
  pub last_handshake_at : Option String
  pub last_check_at : Option String
  pub rtt_ms : Option Number
  pub created_at : String
  pub from_ip : String
  pub from_server_name : String
  pub to_ip : String
  pub to_server_name : String

pub record Project : Type 0 where
  pub id : String
  pub team_id : String
  pub cluster_id : String
  pub name : String
  pub slug : String
  pub description : String
  pub status : String
  pub created_at : String
  pub updated_at : String
  pub cluster_name : Option String

pub record Environment : Type 0 where
  pub id : String
  pub project_id : String
  pub name : String
  pub slug : String
  pub is_production : Bool
  pub created_at : String
