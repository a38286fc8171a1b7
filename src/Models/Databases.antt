-- ===== src/Models/Databases.antt =====
-- Databases, templates and volumes of apps/web-v2/lib/types.ts.
use nixway_core.Prelude.{String, Bool, List, Option}
use nixway_core.Models.{Number}

pub record ProvisionLogEntry : Type 0 where
  pub step : String
  pub level : String
  pub message : String
  pub terminal : Option Bool
  pub success : Option Bool
  pub at : String

pub record Database : Type 0 where
  pub id : String
  pub team_id : String
  pub project_id : String
  pub cluster_id : String
  pub server_id : String
  pub volume_id : Option String
  pub template_slug : String
  pub version : String
  pub name : String
  pub container_name : String
  pub status : String
  pub port : Number
  pub dns_record : Option String
  pub superuser_secret_id : Option String
  pub appuser_secret_id : Option String
  pub resource_cpu_millicores : Number
  pub resource_memory_mb : Number
  pub backup_schedule : Option String
  pub backup_retention_days : Option Number
  pub backup_storage_type : Option String
  pub provision_log : List ProvisionLogEntry
  pub error_message : Option String
  pub created_at : String
  pub updated_at : String

pub record DatabaseProvisionResult : Type 0 where
  pub database : Database
  pub superuser_password : String
  pub appuser_password : String

pub record DefaultResources : Type 0 where
  pub milli_cpu : Number
  pub memory_mb : Number

pub record VolumeSpec : Type 0 where
  pub mount_path : String
  pub default_gib : Option Number

pub record HealthCheck : Type 0 where
  pub command : String
  pub interval : Option Number
  pub timeout : Option Number
  pub retries : Option Number

pub record TemplateVersion : Type 0 where
  pub version : String
  pub image : String
  pub is_default : Option Bool

pub record Template : Type 0 where
  pub slug : String
  pub name : String
  pub category : String
  pub description : Option String
  pub versions : List TemplateVersion
  pub default_resources : DefaultResources
  pub volume_spec : VolumeSpec
  pub ports : List Number
  pub health_check : HealthCheck
  pub conn_string_fmt : String
  pub env_template : List (String × String)
  pub credential_policy : String
  pub shell_command : String
  pub command : Option String

pub record DatabaseLink : Type 0 where
  pub id : String
  pub database_id : String
  pub app_id : String
  pub env_prefix : String
  pub created_at : String

pub record DatabaseCredentialRotation : Type 0 where
  pub id : String
  pub database_id : String
  pub rotated_by : String
  pub old_secret_id : Option String
  pub new_secret_id : Option String
  pub status : String
  pub linked_apps_restarted : Number
  pub error : Option String
  pub created_at : String
  pub completed_at : Option String

pub record RotateCredentialsResponse : Type 0 where
  pub new_password : String
  pub rotation_id : String

pub record DatabaseBackup : Type 0 where
  pub id : String
  pub database_id : String
  pub backup_type : String
  pub status : String
  pub size_bytes : Option Number
  pub storage_type : String
  pub storage_path : Option String
  pub backup_tool : String
  pub triggered_by : Option String
  pub started_at : String
  pub completed_at : Option String
  pub error : Option String

pub record RestoreResult : Type 0 where
  pub database : Database
  pub restart_required : Bool
  pub note : Option String

pub record Volume : Type 0 where
  pub id : String
  pub team_id : String
  pub cluster_id : String
  pub server_id : String
  pub name : String
  pub size_gb : Number
  pub used_bytes : Number
  pub filesystem : String
  pub mount_path : Option String
  pub container_name : Option String
  pub status : String
  pub host_path : String
  pub created_at : String
  pub updated_at : String

pub record VolumeSnapshot : Type 0 where
  pub id : String
  pub volume_id : String
  pub size_bytes : Number
  pub storage_type : String
  pub storage_path : String
  pub created_at : String
