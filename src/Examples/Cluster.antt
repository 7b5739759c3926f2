-- ===== src/Examples/Cluster.antt =====
-- One node, a web workload with two replicas, and the proposals that raise and retire it.
use a4s.Prelude.{true, false, [], ◌∷◌, none, some, String, ℤ, pos}
use a4s.Prelude.Map
use a4s.Prelude.Map.{Map}
use a4s.Types.Budget
use a4s.Types.Resources.{Resources}
use a4s.Types.Goal.{Goal, WorkloadSpec, VolumeRef}
use a4s.Types.World.{World, Node, Allocation, Volume, running, Disruption}
use a4s.Types.Action.{Action, ActionKind, Proposal, AgentDescriptor}
use a4s.Projection.Volumes.{new_volume}
use a4s.Projection.Allocations.{new_allocation}
use a4s.Kernel.Policy.{Policy, default_policy}
use a4s.Kernel.Provenance.{Signing}

abbrev pub some_resources : Resources
some_resources = record { cpu_millis = pos 100; memory_mb = pos 64 }

abbrev pub image : String
image = "registry/web@sha256:0a"

abbrev pub node_one : Node
node_one = record {
  id = "n1";
  labels = Map.empty;
  capacity = record { cpu_millis = pos 1000; memory_mb = pos 1024 };
  used = record { cpu_millis = pos 100; memory_mb = pos 64 };
  images = record { entries = (image, true) ∷ [] };
  healthy = true;
  domain = "";
  cordoned = false;
  cordon_reason = "";
  address = "";
  gateway_port = pos 0;
  zone_fingerprint = "";
  policy_fingerprint = "";
  providers = Map.empty;
  budget_capacity = Budget.zero_budget;
  budget_used = Budget.zero_budget;
}

abbrev pub empty_world : World
empty_world = record {
  revision = 3;
  observed_at = 10;
  nodes = record { entries = ("n1", node_one) ∷ [] };
  allocations = Map.empty;
  routes = Map.empty;
  volumes = Map.empty;
  queues = Map.empty;
  approvals = Map.empty;
  known_good = Map.empty;
  disruptions = [];
  backoff = Map.empty;
}

abbrev pub replica_of : String → ℤ → Allocation
replica_of id n = new_allocation id "web" n "n1" image some_resources Budget.zero_budget

abbrev pub ready_replica : String → ℤ → Allocation
ready_replica id n = record (replica_of id n) { phase = running; ready = true }

abbrev pub first_disruption : Disruption
first_disruption = record {
  target = "web-0";
  workload = "web";
  node = "n1";
  domain = "n1";
  kind = "allocation.stopped";
  at = 9;
}

-- Two ready replicas, after a disruption of the node.
abbrev pub serving_world : World
serving_world = record empty_world {
  allocations = record {
    entries =
        ("web-0", ready_replica "web-0" (pos 0)) ∷ ("web-1", ready_replica "web-1" (pos 1)) ∷ [];
  };
  disruptions = first_disruption ∷ [];
}

abbrev pub web : WorkloadSpec
web = record {
  name = "web";
  image = image;
  replicas = pos 2;
  port = pos 0;
  resources = some_resources;
  privileged = false;
  stateful = false;
  secrets = [];
  volumes = [];
  engine = "";
  runtime = none;
  policy = none;
  schedule = none;
  placement = some (record { max_per_domain = pos 2 });
  attestation = none;
}

abbrev pub goal : Goal
goal = record {
  api_version = "a4s/v1";
  id = "web-goal";
  objective = "serve";
  workload = web;
  route = none;
  constraints = record { required_labels = Map.empty; allowed_nodes = [] };
  canary = none;
}

abbrev pub plain_action : String → ActionKind → String → Action
plain_action id kind target = record {
  id = id;
  kind = kind;
  target = target;
  workload = "web";
  node = "n1";
  image = image;
  replica = pos 0;
  resources = some_resources;
  port = pos 0;
  exposure = "";
  volume = none;
  snapshot = "";
  engine = "";
  retain = pos 0;
  dry_run = false;
  zone = none;
  policy = none;
  protected_images = [];
  secret = none;
  tools = [];
  budget = Budget.zero_budget;
  reason = "";
  probe = none;
  depends_on = [];
}

abbrev pub create_action : Action
create_action = plain_action "create" ActionKind.create_allocation "web-0"

abbrev pub start_action : Action
start_action = record (plain_action "start" ActionKind.start_allocation "web-0") {
  depends_on = "create" ∷ [];
}

abbrev pub stop_action : Action
stop_action = plain_action "stop" ActionKind.stop_allocation "web-0"

abbrev pub raise : Proposal
raise = record {
  id = "p1";
  agent_id = "placement-agent";
  goal_id = "web-goal";
  based_on_revision = 3;
  reasoning = "";
  actions = create_action ∷ start_action ∷ [];
  expected_evidence = record { kind = "allocation_ready"; target = "web-0"; want = "true" } ∷ [];
}

abbrev pub retire : Proposal
retire = record {
  id = "p2";
  agent_id = "rollout-agent";
  goal_id = "web-goal";
  based_on_revision = 3;
  reasoning = "";
  actions = stop_action ∷ [];
  expected_evidence = [];
}

abbrev pub placement_agent : AgentDescriptor
placement_agent = record { id = "placement-agent"; role = "placement"; capabilities = [] }

abbrev pub rollout_agent : AgentDescriptor
rollout_agent = record { id = "rollout-agent"; role = "rollout"; capabilities = [] }

-- A library that accepts nothing; no image here carries an attestation.
abbrev pub no_signing : Signing
no_signing = record {
  is_public_key = λ _. false;
  verify = λ _ _ _. false;
  decode_base64 = λ _. none;
  decode_statement = λ _. none;
  is_pinned = λ _. false;
}

abbrev pub capped_policy : Policy
capped_policy = record default_policy { max_allocations = pos 5 }

-- A database goal, whose allocation holds the current generation of its volume.
abbrev pub data_volume : Volume
data_volume = record (new_volume "data" "n1" (pos 8)) { owner = "web-0"; generation = 1 }

abbrev pub data_ref : VolumeRef
data_ref = record { name = "data"; mount_path = "/data"; read_only = false; checksum = "" }

abbrev pub stateful_goal : Goal
stateful_goal = record goal { workload = record web { volumes = data_ref ∷ [] } }

abbrev pub holder : Allocation
holder = record (replica_of "web-0" (pos 0)) { volumes = record { entries = ("data", 1) ∷ [] } }

abbrev pub attached_world : World
attached_world = record empty_world {
  allocations = record { entries = ("web-0", holder) ∷ [] };
  volumes = record { entries = ("data", data_volume) ∷ [] };
}
