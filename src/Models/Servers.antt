-- ===== src/Models/Servers.antt =====
-- Servers, their provisioning, and SSH keys of apps/web-v2/lib/types.ts.
use nixway_core.Prelude.{String, Bool, List, Option}
use nixway_core.Json.{Json}
use nixway_core.Models.{Number, ServerRole}

pub data ServerStatus : Type 0 where
  server_online server_offline server_degraded server_provisioning server_unknown : ServerStatus

abbrev pub server_status_name : ServerStatus → String
server_status_name server_online = "online"
server_status_name server_offline = "offline"
server_status_name server_degraded = "degraded"
server_status_name server_provisioning = "provisioning"
server_status_name server_unknown = "unknown"

pub record Server : Type 0 where
  pub id : String
  pub team_id : String
  pub agent_id : Option String
  pub name : String
  pub hostname : String
  pub public_ip : String
  pub ssh_port : Number
  pub ssh_user : String
  pub os : Option String
  pub os_version : Option String
  pub arch : Option String
  pub status : ServerStatus
  pub role : ServerRole
  pub last_seen_at : Option String
  pub created_at : String
  pub updated_at : String

pub record ServerTag : Type 0 where
  pub id : Option String
  pub server_id : Option String
  pub key : String
  pub value : String
  pub created_at : Option String

pub record ServerResources : Type 0 where
  pub server_id : String
  pub cpu_model : Option String
  pub cpu_cores : Option Number
  pub memory_total : Option Number
  pub memory_available : Option Number
  pub kernel_version : Option String
  pub docker_version : Option String
  pub disks : Json
  pub network_interfaces : Json
  pub updated_at : String

pub record ServerDetail : Type 0 where
  pub id : String
  pub team_id : String
  pub agent_id : Option String
  pub name : String
  pub hostname : String
  pub public_ip : String
  pub ssh_port : Number
  pub ssh_user : String
  pub os : Option String
  pub os_version : Option String
  pub arch : Option String
  pub status : ServerStatus
  pub role : ServerRole
  pub last_seen_at : Option String
  pub created_at : String
  pub updated_at : String
  pub resources : Option ServerResources

pub record ServerMetric : Type 0 where
  pub server_id : String
  pub cpu_percent : Number
  pub memory_total : Number
  pub memory_used : Number
  pub memory_percent : Number
  pub updated_at : String
  pub fresh : Bool

pub data ProvisioningJobStatus : Type 0 where
  job_pending job_running job_completed job_failed : ProvisioningJobStatus

abbrev pub provisioning_job_status_name : ProvisioningJobStatus → String
provisioning_job_status_name job_pending = "pending"
provisioning_job_status_name job_running = "running"
provisioning_job_status_name job_completed = "completed"
provisioning_job_status_name job_failed = "failed"

pub data ProvisioningStepStatus : Type 0 where
  step_pending step_running step_succeeded step_failed : ProvisioningStepStatus

abbrev pub provisioning_step_status_name : ProvisioningStepStatus → String
provisioning_step_status_name step_pending = "pending"
provisioning_step_status_name step_running = "running"
provisioning_step_status_name step_succeeded = "succeeded"
provisioning_step_status_name step_failed = "failed"

pub record ProvisioningStep : Type 0 where
  pub component : String
  pub status : ProvisioningStepStatus
  pub started_at : Option String
  pub completed_at : Option String
  pub error : Option String

pub data ProvisioningComponent : Type 0 where
  component_docker component_traefik component_edge_lb component_nixpacks component_buildpacks
        component_railpack component_agent :
      ProvisioningComponent

abbrev pub provisioning_component_name : ProvisioningComponent → String
provisioning_component_name component_docker = "docker"
provisioning_component_name component_traefik = "traefik"
provisioning_component_name component_edge_lb = "edge-lb"
provisioning_component_name component_nixpacks = "nixpacks"
provisioning_component_name component_buildpacks = "buildpacks"
provisioning_component_name component_railpack = "railpack"
provisioning_component_name component_agent = "agent"

pub record ProvisioningJob : Type 0 where
  pub id : String
  pub server_id : String
  pub components : List ProvisioningComponent
  pub status : ProvisioningJobStatus
  pub logs : String
  pub started_at : Option String
  pub completed_at : Option String
  pub error : Option String
  pub created_at : String
  pub steps : List ProvisioningStep

pub data SshKeyType : Type 0 where
  key_ed25519 key_rsa : SshKeyType

abbrev pub ssh_key_type_name : SshKeyType → String
ssh_key_type_name key_ed25519 = "ed25519"
ssh_key_type_name key_rsa = "rsa"

pub record SshKey : Type 0 where
  pub id : String
  pub team_id : String
  pub name : String
  pub public_key : String
  pub key_type : String
  pub fingerprint : String
  pub created_at : String
  pub updated_at : Option String
  pub private_key : Option String
