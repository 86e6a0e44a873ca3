-- ===== src/Orchestrator/Store/Rows.antt =====
-- The rows of the orchestrator's store (services/orchestrator/src/types.ts and repository.ts). A
-- field that a patch may leave out, or set to null, is an option of an option.
use nexus_infra.Prelude.{ℕ, String, Bool, Option, List, []}
use nexus_infra.Prelude.Assoc.{Assoc}
use nexus_infra.Orchestrator.Retention.{BackupRetention}

pub record UserRecord : Type 0 where
  pub id : String
  pub email : String
  pub display_name : String
  pub password_hash : String
  pub platform_role : String
  pub created_at : ℕ
  pub totp_secret : Option String
  pub totp_enabled_at : Option ℕ
  pub email_verified_at : Option ℕ

pub record CreateUserInput : Type 0 where
  pub id : String
  pub email : String
  pub display_name : String
  pub password_hash : String
  pub platform_role : String
  pub email_verified_at : Option ℕ

pub record TeamRecord : Type 0 where
  pub id : String
  pub name : String
  pub owner_id : String
  pub created_at : ℕ

pub record TeamMemberRecord : Type 0 where
  pub id : String
  pub team_id : String
  pub user_id : String
  pub role : String
  pub created_at : ℕ

pub record TeamMemberView : Type 0 where
  pub member : TeamMemberRecord
  pub email : String
  pub display_name : String

pub data NodeConnection : Type 0 where
  direct : NodeConnection
  outbound : NodeConnection

pub record NodeRecord : Type 0 where
  pub id : String
  pub name : String
  pub location : Option String
  pub ip_address : Option String
  pub agent_url : Option String
  pub last_heartbeat : ℕ
  pub cpu_percent : Option String
  pub cpu_cores : Option String
  pub ram_used_mb : Option String
  pub ram_total_mb : Option String
  pub disk_used_gb : Option String
  pub disk_total_gb : Option String
  pub maintenance : Bool
  pub port_range_start : Option ℕ
  pub port_range_end : Option ℕ
  pub connection : NodeConnection

pub record UpsertNodeInput : Type 0 where
  pub id : String
  pub name : Option String
  pub location : Option (Option String)
  pub ip_address : Option String
  pub agent_url : Option String
  pub last_heartbeat : ℕ
  pub cpu_percent : Option String
  pub cpu_cores : Option String
  pub ram_used_mb : Option String
  pub ram_total_mb : Option String
  pub disk_used_gb : Option String
  pub disk_total_gb : Option String
  pub connection : Option NodeConnection

pub record RegisterNodeInput : Type 0 where
  pub id : String
  pub name : Option String
  pub location : Option (Option String)
  pub agent_url : Option (Option String)
  pub maintenance : Option Bool
  pub port_range : Option (Option (ℕ × ℕ))
  pub connection : Option NodeConnection

pub record PortAllocationRecord : Type 0 where
  pub id : String
  pub node_id : String
  pub port : ℕ
  pub deployment_id : String
  pub primary : Bool
  pub created_at : ℕ

pub record NotificationChannelRecord : Type 0 where
  pub id : String
  pub user_id : String
  pub kind : String
  pub target : String
  pub format : String
  pub events : List String
  pub secret : Option String
  pub allow_private : Bool
  pub enabled : Bool
  pub last_delivery_at : Option ℕ
  pub last_error : Option String
  pub created_at : ℕ

pub data DeliveryStatus : Type 0 where
  pending : DeliveryStatus
  sent : DeliveryStatus
  failed : DeliveryStatus

pub record NotificationDeliveryRecord : Type 0 where
  pub id : String
  pub channel_id : String
  pub event : String
  pub payload : String
  pub status : DeliveryStatus
  pub attempts : ℕ
  pub next_attempt_at : ℕ
  pub last_error : Option String
  pub created_at : ℕ
  pub sent_at : Option ℕ

pub record ServerConfigRecord : Type 0 where
  pub id : String
  pub user_id : String
  pub team_id : Option String
  pub name : String
  pub docker_image : String
  pub ports : Assoc String
  pub env : Assoc String
  pub resource_limits : String
  pub auto_restart : Bool
  pub data_path : Option String
  pub persist_paths : List String
  pub backup_retention : BackupRetention
  pub type : String
  pub created_at : ℕ

pub record CreateServerConfigInput : Type 0 where
  pub user_id : String
  pub team_id : Option String
  pub name : String
  pub docker_image : String
  pub ports : Option (Assoc String)
  pub env : Option (Assoc String)
  pub resource_limits : Option String
  pub auto_restart : Option Bool
  pub data_path : Option String
  pub persist_paths : Option (List String)
  pub type : Option String

pub record UpdateServerConfigInput : Type 0 where
  pub name : Option String
  pub docker_image : Option String
  pub ports : Option (Assoc String)
  pub env : Option (Assoc String)
  pub resource_limits : Option String
  pub auto_restart : Option Bool
  pub persist_paths : Option (List String)
  pub backup_retention : Option BackupRetention

pub record DeploymentRecord : Type 0 where
  pub id : String
  pub server_config_id : String
  pub node_id : Option String
  pub container_id : Option String
  pub status : String
  pub started_at : Option ℕ
  pub stopped_at : Option ℕ
  pub created_at : ℕ
  pub suspended_at : Option ℕ
  pub suspended_reason : Option String

pub record DeploymentStatusPatch : Type 0 where
  pub status : Option String
  pub node_id : Option (Option String)
  pub container_id : Option (Option String)
  pub started_at : Option (Option ℕ)
  pub stopped_at : Option (Option ℕ)
  pub suspended_at : Option (Option ℕ)
  pub suspended_reason : Option (Option String)

pub record DeploymentView : Type 0 where
  pub deployment : DeploymentRecord
  pub name : String
  pub docker_image : String
  pub user_id : String
  pub team_id : Option String
  pub type : String
  pub resource_limits : String
  pub auto_restart : Bool

pub record DeploymentEventRecord : Type 0 where
  pub id : String
  pub deployment_id : String
  pub event : String
  pub message : String
  pub timestamp : ℕ

pub record DeploymentDetail : Type 0 where
  pub view : DeploymentView
  pub events : List DeploymentEventRecord
  pub ports : Assoc String
  pub env : Assoc String
  pub persist_paths : List String
  pub backup_retention : BackupRetention

pub record ServerDatabaseRecord : Type 0 where
  pub id : String
  pub deployment_id : String
  pub engine : String
  pub name : String
  pub username : String
  pub password : String
  pub host : String
  pub port : ℕ
  pub container_id : Option String
  pub status : String
  pub created_at : ℕ

pub record CreateServerDatabaseInput : Type 0 where
  pub deployment_id : String
  pub engine : String
  pub name : String
  pub username : String
  pub password : String
  pub host : String
  pub port : ℕ
  pub container_id : Option String

pub record ServerBackupRecord : Type 0 where
  pub id : String
  pub deployment_id : String
  pub name : String
  pub path : String
  pub ref : String
  pub size_bytes : ℕ
  pub status : String
  pub created_at : ℕ
  pub offsite : Option String

pub record CreateServerBackupInput : Type 0 where
  pub deployment_id : String
  pub name : String
  pub path : String
  pub ref : String
  pub size_bytes : ℕ
  pub offsite : Option String

pub record ServerScheduleRecord : Type 0 where
  pub id : String
  pub deployment_id : String
  pub name : String
  pub cron : String
  pub action : String
  pub enabled : Bool
  pub last_run_at : Option ℕ
  pub created_at : ℕ

pub record CreateServerScheduleInput : Type 0 where
  pub deployment_id : String
  pub name : String
  pub cron : String
  pub action : String
  pub enabled : Option Bool

pub record UpdateServerScheduleInput : Type 0 where
  pub name : Option String
  pub cron : Option String
  pub action : Option String
  pub enabled : Option Bool
  pub last_run_at : Option (Option ℕ)

pub record ServerSubuserRecord : Type 0 where
  pub id : String
  pub deployment_id : String
  pub email : String
  pub user_id : Option String
  pub status : String
  pub role : String
  pub created_at : ℕ

pub record CreateServerSubuserInput : Type 0 where
  pub deployment_id : String
  pub email : String
  pub role : String
  pub user_id : Option String
  pub status : Option String

pub record SessionRecord : Type 0 where
  pub id : String
  pub user_id : String
  pub created_at : ℕ
  pub last_seen_at : ℕ
  pub user_agent : Option String
  pub ip_address : Option String

-- A password-reset link or an e-mail verification link, under the hash of its token.
pub record LinkRecord : Type 0 where
  pub user_id : String
  pub expires_at : ℕ
  pub used_at : Option ℕ

pub record ApiTokenRecord : Type 0 where
  pub id : String
  pub user_id : String
  pub name : String
  pub token_hash : String
  pub scopes : String
  pub created_at : ℕ
  pub last_used_at : Option ℕ
  pub expires_at : Option ℕ

pub record CreateApiTokenInput : Type 0 where
  pub user_id : String
  pub name : String
  pub token_hash : String
  pub scopes : String
  pub expires_at : Option ℕ

pub record RecoveryCode : Type 0 where
  pub user_id : String
  pub code_hash : String

-- The store itself: each Map of `InMemoryRepository`, and its array of events.
pub record Store : Type 0 where
  pub users : Assoc UserRecord
  pub teams : Assoc TeamRecord
  pub team_members : Assoc TeamMemberRecord
  pub nodes : Assoc NodeRecord
  pub port_allocations : Assoc PortAllocationRecord
  pub channels : Assoc NotificationChannelRecord
  pub deliveries : Assoc NotificationDeliveryRecord
  pub configs : Assoc ServerConfigRecord
  pub deployments : Assoc DeploymentRecord
  pub events : List DeploymentEventRecord
  pub databases : Assoc ServerDatabaseRecord
  pub backups : Assoc ServerBackupRecord
  pub schedules : Assoc ServerScheduleRecord
  pub subusers : Assoc ServerSubuserRecord
  pub sessions : Assoc SessionRecord
  pub password_resets : Assoc LinkRecord
  pub email_verifications : Assoc LinkRecord
  pub api_tokens : Assoc ApiTokenRecord
  pub recovery_codes : Assoc RecoveryCode
  pub link_token_hashes : Assoc String

unfoldable pub empty_store : Store
empty_store = record {
  users = [];
  teams = [];
  team_members = [];
  nodes = [];
  port_allocations = [];
  channels = [];
  deliveries = [];
  configs = [];
  deployments = [];
  events = [];
  databases = [];
  backups = [];
  schedules = [];
  subusers = [];
  sessions = [];
  password_resets = [];
  email_verifications = [];
  api_tokens = [];
  recovery_codes = [];
  link_token_hashes = [];
}
