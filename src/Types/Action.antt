-- ===== src/Types/Action.antt =====
-- control/types.go: what an agent proposes. A kind that the source does not declare is `other`,
-- which never holds a declared name.
use a4s.Prelude.{Bool, Option, List, String, ℕ, ℤ}
use a4s.Prelude.Map.{Map}
use a4s.Types.Budget.{Budget}
use a4s.Types.Resources.{Resources}
use a4s.Types.Goal.{ToolGrant, SecretRef, VolumeRef}

pub data ActionKind : Type 0 where
  pull_image create_allocation attach_network mount_secret : ActionKind
  create_volume attach_volume detach_volume snapshot_volume restore_snapshot : ActionKind
  backup_snapshot quiesce_volume transfer_volume adopt_volume prune_snapshots : ActionKind
  collect_images verify_backup database_backup : ActionKind
  start_allocation stop_allocation delete_allocation publish_route : ActionKind
  apply_policy publish_zone grant_tools drain_allocation : ActionKind
  cordon_node uncordon_node probe_readiness : ActionKind
  other : String → ActionKind

-- The text of a kind, by which grants are looked up.
unfoldable pub kind_text : ActionKind → String
kind_text pull_image = "pull_image"
kind_text create_allocation = "create_allocation"
kind_text attach_network = "attach_network"
kind_text mount_secret = "mount_secret"
kind_text create_volume = "create_volume"
kind_text attach_volume = "attach_volume"
kind_text detach_volume = "detach_volume"
kind_text snapshot_volume = "snapshot_volume"
kind_text restore_snapshot = "restore_snapshot"
kind_text backup_snapshot = "backup_snapshot"
kind_text quiesce_volume = "quiesce_volume"
kind_text transfer_volume = "transfer_volume"
kind_text adopt_volume = "adopt_volume"
kind_text prune_snapshots = "prune_snapshots"
kind_text collect_images = "collect_images"
kind_text verify_backup = "verify_backup"
kind_text database_backup = "database_backup"
kind_text start_allocation = "start_allocation"
kind_text stop_allocation = "stop_allocation"
kind_text delete_allocation = "delete_allocation"
kind_text publish_route = "publish_route"
kind_text apply_policy = "apply_policy"
kind_text publish_zone = "publish_zone"
kind_text grant_tools = "grant_tools"
kind_text drain_allocation = "drain_allocation"
kind_text cordon_node = "cordon_node"
kind_text uncordon_node = "uncordon_node"
kind_text probe_readiness = "probe_readiness"
kind_text (other s) = s

-- control/resolve.go
pub record ResolvedEndpoint : Type 0 where
  pub address : String
  pub port : ℤ
  pub allocation : String
  pub node : String
  pub local : Bool

-- control/resolve.go
pub record ServiceZone : Type 0 where
  pub node : String
  pub records : Map (List ResolvedEndpoint)

-- control/netpolicy.go
pub record CompiledPolicy : Type 0 where
  pub node : String
  pub table : String
  pub rules : List String

-- control/probe.go
pub record ProbeTarget : Type 0 where
  pub allocation : String
  pub kind : String
  pub port : ℤ
  pub path : String
  pub provider : String
  pub address : String
  pub engine : String
  pub node : String

pub record Action : Type 0 where
  pub id : String
  pub kind : ActionKind
  pub target : String
  pub workload : String
  pub node : String
  pub image : String
  pub replica : ℤ
  pub resources : Resources
  pub port : ℤ
  pub exposure : String
  pub volume : Option VolumeRef
  pub snapshot : String
  pub engine : String
  pub retain : ℤ
  pub dry_run : Bool
  pub zone : Option ServiceZone
  pub policy : Option CompiledPolicy
  pub protected_images : List String
  pub secret : Option SecretRef
  pub tools : List ToolGrant
  pub budget : Budget
  pub reason : String
  pub probe : Option ProbeTarget
  pub depends_on : List String

pub record Check : Type 0 where
  pub kind : String
  pub target : String
  pub want : String

-- `based_on_revision` is a `uint64`.
pub record Proposal : Type 0 where
  pub id : String
  pub agent_id : String
  pub goal_id : String
  pub based_on_revision : ℕ
  pub reasoning : String
  pub actions : List Action
  pub expected_evidence : List Check

pub record AgentDescriptor : Type 0 where
  pub id : String
  pub role : String
  pub capabilities : List ActionKind
