-- ===== src/Kernel/Policy.antt =====
-- control/policy.go: the policy of a kernel, and the default one.
use a4s.Prelude.{Bool, true, false, none, some, List, [], ◌∷◌, String, ℤ, pos}
use a4s.Prelude.Map
use a4s.Prelude.Map.{Map}
use a4s.Types.Budget
use a4s.Types.Budget.{Budget}
use a4s.Types.Resources.{Resources}
use a4s.Types.Goal.{Duration}
use a4s.Types.Action.{ActionKind, kind_text}
use a4s.Disruption.{default_max_disruptions, default_disruption_window, default_disruption_cooldown}

pub record Policy : Type 0 where
  pub max_actions_per_proposal : ℤ
  pub grants : Map (Map Bool)
  pub max_disruptions_per_window : ℤ
  pub disruption_window : Duration
  pub disruption_cooldown : Duration
  pub image_signers : Map String
  pub require_signed_images : Bool
  pub cluster_ceiling : Resources
  pub max_allocations : ℤ
  pub cluster_budget : Budget

-- The grants of an agent, which are empty for an unknown agent.
unfoldable pub grants_of : Policy → String → Map Bool
grants_of p agent = elim (Map.get p.grants agent) [ none ↦ Map.empty | some g ↦ g ]

-- `grants[action.Kind]`
unfoldable pub granted : Map Bool → ActionKind → Bool
granted g k = elim (Map.get g (kind_text k)) [ none ↦ false | some b ↦ b ]

-- A map literal whose values are `true`.
abbrev pub grant_entries : List String → List (String × Bool)
grant_entries [] = []
grant_entries (k ∷ ks) = (k, true) ∷ grant_entries ks

abbrev pub grant_set : List String → Map Bool
grant_set ks = record { entries = grant_entries ks }

abbrev placement_agent : List String
placement_agent =
    "pull_image" ∷ "create_allocation" ∷ "attach_network" ∷ "mount_secret" ∷ "create_volume"
    ∷ "attach_volume" ∷ "start_allocation" ∷ "grant_tools" ∷ []

abbrev network_agent : List String
network_agent = "publish_route" ∷ "apply_policy" ∷ "publish_zone" ∷ []

abbrev remediation_agent : List String
remediation_agent = "cordon_node" ∷ "stop_allocation" ∷ "delete_allocation" ∷ []

abbrev rollout_agent : List String
rollout_agent = "stop_allocation" ∷ "delete_allocation" ∷ "drain_allocation" ∷ "detach_volume" ∷ []

abbrev storage_agent : List String
storage_agent =
    "snapshot_volume" ∷ "database_backup" ∷ "backup_snapshot" ∷ "restore_snapshot"
    ∷ "quiesce_volume" ∷ "transfer_volume" ∷ "adopt_volume" ∷ "prune_snapshots" ∷ "collect_images"
    ∷ "verify_backup" ∷ []

unfoldable pub default_policy : Policy
default_policy = record {
  max_actions_per_proposal = pos 8;
  grants = record {
    entries =
        ("placement-agent", grant_set placement_agent)
        ∷ ("network-agent", grant_set network_agent)
        ∷ ("remediation-agent", grant_set remediation_agent)
        ∷ ("rollout-agent", grant_set rollout_agent)
        ∷ ("storage-agent", grant_set storage_agent)
        ∷ [];
  };
  max_disruptions_per_window = pos default_max_disruptions;
  disruption_window = pos default_disruption_window;
  disruption_cooldown = pos default_disruption_cooldown;
  image_signers = Map.empty;
  require_signed_images = false;
  cluster_ceiling = record { cpu_millis = pos 0; memory_mb = pos 0 };
  max_allocations = pos 0;
  cluster_budget = Budget.zero_budget;
}
