-- ===== src/Examples/Executions.antt =====
-- The theorem on the execution of a proposal, applied to a node that is cordoned.
use a4s.Prelude.{ℕ, ◌≡◌, refl, true, false, none, some, List, [], ◌∷◌, String, Result, ok}
use a4s.Prelude.Map
use a4s.Types.Action.{ActionKind, Proposal}
use a4s.Types.Evidence.{Evidence, EvidenceKind}
use a4s.Projection.{replay}
use a4s.Engine.{Engine, Wiring}
use a4s.Engine.Execute.{execute_proposal}
use a4s.Lease.{Lease}
use a4s.Lease.Release.{has_id}
use a4s.Engine.Rebuild.{evidence_of, execute_proposal-rebuilt}
use a4s.Examples.Cluster.{plain_action, goal, serving_world}

abbrev cordoned : Evidence
cordoned = record {
  kind = EvidenceKind.node_cordoned;
  target = "n1";
  source = "";
  observed_at = 0;
  expires_at = 0;
  observed = record { entries = ("node", "n1") ∷ ("reason", "disk") ∷ [] };
}

abbrev wiring : Wiring
wiring = record {
  execute = λ a. ok cordoned;
  persist = λ e. ok tt;
  next_sequence = λ n. n;
  probers = [];
  clock = 100;
  kind_name = λ k. "node.cordoned";
}

abbrev cordon : Proposal
cordon = record {
  id = "p1";
  agent_id = "remediation-agent";
  goal_id = "g1";
  based_on_revision = 0;
  reasoning = "";
  actions = plain_action "cordon-n1" ActionKind.cordon_node "n1" ∷ [];
  expected_evidence = [];
}

abbrev lease : Lease
lease = record { target = "n1"; proposal_id = "p1"; goal_id = "g1"; id = "l1"; expires_at = 300 }

-- Before the execution, with its lease on the node.
abbrev idle : Engine
idle = record {
  world = serving_world;
  events = [];
  leases = record {
    leases = record { entries = ("n1", lease) ∷ [] };
    ttl = 300;
    lease_id = λ proposal _. proposal;
  };
  probe_targets = Map.empty;
  has_probe_targets = true;
}

abbrev ended : Engine
ended = (execute_proposal wiring goal cordon "l1" idle).0

ended-ok : execute_proposal wiring goal cordon "l1" idle ≡ (ended, ok tt)
unfolding execute_proposal a4s.Prelude.◌>>=◌ a4s.Projection.project_kind
    a4s.Projection.Nodes.node_cordoned Map.get
ended-ok = refl

execute_proposal-rebuilt_example :
    (replay serving_world (evidence_of ended.events) ≡ ok ended.world)
    × (has_id "l1" (Map.get ended.leases.leases "n1") ≡ false)
unfolding replay
execute_proposal-rebuilt_example =
    execute_proposal-rebuilt wiring goal cordon "l1" "n1" serving_world idle ended refl ended-ok
