-- ===== src/Remediation.antt =====
-- control/remediation.go, and what it uses of control/node_lifecycle.go: the agent that repairs. The
-- texts for operators are their formats. `render` is `fmt.Sprintf("%s-r%d", ...)` of the agent and a
-- revision.
pub mod Repairs
pub mod Searches
use Prim.Native.String.{compare, ◌++◌}
use Prim.Native.Nat.{Ordering}
use a4s.Prelude.{
  ℕ, Bool, true, false, ◌&&◌, ◌||◌, not, Option, none, some, List, [], ◌∷◌, String, ◌==◌,
  if◌then◌else◌, ℤ, pos, le_ℤ, Result, ok, err,
}
use a4s.Prelude.Map
use a4s.Prelude.Map.{Map}
use a4s.Types.Resources
use a4s.Types.Budget
use a4s.Types.Goal.{Goal}
use a4s.Types.World.{World, Node, Allocation, phase_is, stopped}
use a4s.Types.Action.{Action, ActionKind, AgentDescriptor, Proposal}
use a4s.Types.Evidence.{Evidence, EvidenceKind}

abbrev pub max_remediation_attempts : ℤ
max_remediation_attempts = pos 3

unfoldable pub descriptor : AgentDescriptor
descriptor = record {
  id = "remediation-agent";
  role = "take failed nodes out of service and retire allocations that cannot recover";
  capabilities =
      ActionKind.cordon_node ∷ ActionKind.stop_allocation ∷ ActionKind.delete_allocation ∷ [];
}

abbrev pub text_before : String → String → Bool
text_before a b = elim (compare a b) [ Ordering.lt ↦ true | _ ↦ false ]

-- The first of some texts after `sort.Strings`, or an empty text.
unfoldable pub least : List String → String
least [] = ""
least (x ∷ []) = x
least (x ∷ y ∷ ys) = let rest = least (y ∷ ys) in if text_before rest x then rest else x

-- The keys of a map whose values pass a test.
unfoldable pub keys_where {ℓ} : {V : Type ℓ} → (String → V → Bool) → List (String × V) → List String
keys_where test [] = []
keys_where test ((k, v) ∷ m) = let rest = keys_where test m in if test k v then k ∷ rest else rest

-- `UnhealthyNodes`, which sorts them.
abbrev pub is_unhealthy : String → Node → Bool
is_unhealthy id n = not n.healthy && not n.cordoned

abbrev pub holds_workload : String → String → List (String × Allocation) → Bool
holds_workload workload node [] = false
holds_workload workload node ((_, a) ∷ as') =
    a.workload == workload && a.node == node || holds_workload workload node as'

unfoldable pub failed_node_holding : World → String → String
unfolding least keys_where
failed_node_holding w workload = least (
    keys_where (λ id n. is_unhealthy id n && holds_workload workload id w.allocations.entries)
      w.nodes.entries)

abbrev pub has_given_up : World → String → Bool
has_given_up w id = elim (Map.get w.backoff id) [
  | none ↦ false
  | some b ↦ le_ℤ max_remediation_attempts b.failures
]

abbrev pub is_retirable : World → String → String → Allocation → Bool
is_retirable w workload id a =
    a.workload == workload && phase_is a.phase stopped && not (has_given_up w id)

unfoldable pub retirable_allocation : World → String → String
unfolding least keys_where
retirable_allocation w workload = least (keys_where (is_retirable w workload) w.allocations.entries)

abbrev pub on_cordoned : World → Allocation → Bool
on_cordoned w a = elim (Map.get w.nodes a.node) [ none ↦ false | some n ↦ n.cordoned ]

abbrev pub is_evacuable : World → String → String → Allocation → Bool
is_evacuable w workload id a =
    a.workload == workload && not (phase_is a.phase stopped) && on_cordoned w a

unfoldable pub evacuable_allocation : World → String → String
unfolding least keys_where
evacuable_allocation w workload = least (keys_where (is_evacuable w workload) w.allocations.entries)

-- An action with the fields that are set, and the zero values of the others.
abbrev pub action :
    (id : String) → ActionKind → (target workload reason : String) → List String → Action
action id kind target workload reason depends_on = record {
  id = id;
  kind = kind;
  target = target;
  workload = workload;
  node = "";
  image = "";
  replica = pos 0;
  resources = record { cpu_millis = pos 0; memory_mb = pos 0 };
  port = pos 0;
  exposure = "";
  volume = none;
  snapshot = "";
  engine = "";
  retain = pos 0;
  dry_run = false;
  zone = none;
  policy = none;
  protected_images = [];
  secret = none;
  tools = [];
  budget = Budget.zero_budget;
  reason = reason;
  probe = none;
  depends_on = depends_on;
}

-- What the ladder proposes: the actions and the reason for them.
abbrev pub repair : Goal → World → List Action × String
repair g w =
    let workload = g.workload.name in
    let node = failed_node_holding w workload in
    let retired = retirable_allocation w workload in
    let moved = evacuable_allocation w workload in
    if not (node == "")
    then (
      action ("cordon-" ++ node) ActionKind.cordon_node node ""
            ("unhealthy node holding " ++ workload) []
          ∷ [],
      "node %q is unhealthy and still holds %q; stop placing work on it",
    )
    else if not (retired == "")
    then (
      action ("delete-" ++ retired) ActionKind.delete_allocation retired workload "" [] ∷ [],
      "allocation %q stopped and is holding its replica slot; retire it so it can be replaced",
    )
    else if not (moved == "")
    then (
      action ("stop-" ++ moved) ActionKind.stop_allocation moved workload "" []
          ∷ action ("delete-" ++ moved) ActionKind.delete_allocation moved workload ""
              (("stop-" ++ moved) ∷ [])
          ∷ [],
      "allocation %q runs on a cordoned node; move it off",
    )
    else ([], "")

unfoldable pub propose : (render : String → ℕ → String) → Goal → World → Proposal
unfolding failed_node_holding retirable_allocation evacuable_allocation
propose render g w = record {
  id = render "remediation-agent" w.revision;
  agent_id = "remediation-agent";
  goal_id = g.id;
  based_on_revision = w.revision;
  reasoning = (repair g w).1;
  actions = (repair g w).0;
  expected_evidence = [];
}

-- `CordonEvidence`
abbrev pub cordon_kind : ActionKind → EvidenceKind
cordon_kind ActionKind.uncordon_node = EvidenceKind.node_uncordoned
cordon_kind _ = EvidenceKind.node_cordoned

unfoldable pub cordon_evidence : Action → Result Evidence
cordon_evidence a =
    if a.target == ""
    then err "%s requires a node"
    else ok (record {
      kind = cordon_kind a.kind;
      target = a.target;
      source = "";
      observed_at = 0;
      expires_at = 0;
      observed = record { entries = ("node", a.target) ∷ ("reason", a.reason) ∷ [] };
    })
