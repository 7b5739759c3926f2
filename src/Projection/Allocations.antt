-- ===== src/Projection/Allocations.antt =====
-- control/projection.go, the cases of `projectInto` on the life of an allocation.
use a4s.Prelude.{
  ℕ, zero, suc, Bool, true, false, ◌&&◌, ◌||◌, not, none, some, List, [], ◌∷◌, String, ◌==◌, ℤ, pos,
  negsuc, lt_ℤ, if◌then◌else◌, Result, ok, err, ◌>>=◌, ◌>>◌, require, refuse, or_fail,
}
use a4s.Prelude.Map
use a4s.Types.Budget
use a4s.Types.Budget.{Budget}
use a4s.Types.Resources
use a4s.Types.Resources.{Resources}
use a4s.Types.Goal.{ToolGrant}
use a4s.Types.World.{
  World, Allocation, Node, created, running, stopped, phase_is, exhausted, is_zero_time, before,
}
use a4s.Types.Evidence.{Evidence, seen, observed_int}
use a4s.Disruption.{record_disruption, record_failure, clear_backoff}
use a4s.Projection.Volumes.{has}

abbrev pub put_allocation : World → String → Allocation → World
put_allocation w id a = record w { allocations = Map.put w.allocations id a }

unfoldable pub observed_resources : Evidence → Result Resources
observed_resources e =
    let r : Resources = record {
      cpu_millis = observed_int e "cpu_millis";
      memory_mb = observed_int e "memory_mb";
    } in
    if lt_ℤ r.cpu_millis (pos 1) || lt_ℤ r.memory_mb (pos 1)
    then err "evidence %q must observe positive resources"
    else ok r

unfoldable pub observed_budget : Evidence → Budget
observed_budget e = record {
  tokens = observed_int e "tokens";
  cost_millis = observed_int e "cost_millis";
  wall_seconds = observed_int e "wall_seconds";
  tool_calls = observed_int e "tool_calls";
}

-- `&Allocation{...}` in phase created; the fields that the literal leaves out are zero.
abbrev pub new_allocation : String → String → ℤ → String → String → Resources → Budget → Allocation
new_allocation id workload replica node image resources budget = record {
  id = id;
  workload = workload;
  replica = replica;
  node = node;
  image = image;
  resources = resources;
  phase = created;
  ready = false;
  stateful = false;
  volumes = Map.empty;
  secrets = Map.empty;
  address = "";
  exit_code = pos 0;
  restarts = pos 0;
  ready_expires_at = 0;
  ready_since = 0;
  budget = budget;
  spent = Budget.zero_budget;
  draining = false;
  task = "";
  tools = [];
}

-- A node commits the resources and the budget of a new allocation.
unfoldable pub commit_to_node : Node → Resources → Budget → Node
commit_to_node n resources budget = record n {
  used = Resources.add n.used resources;
  budget_used = Budget.add n.budget_used budget;
}

unfoldable pub allocation_created : World → Evidence → Result World
unfolding commit_to_node
allocation_created w e = do
  n ← or_fail (Map.get w.nodes (seen e "node")) "evidence %q names unknown node %q"
  refuse (e.target == "") "evidence %q must name an allocation"
  if has w.allocations e.target then ok w else do
    resources ← observed_resources e
    let budget = observed_budget e
    let a =
        new_allocation e.target (seen e "workload") (observed_int e "replica") n.id (seen e "image")
          resources budget
    ok (record w {
      allocations = Map.put w.allocations e.target a;
      nodes = Map.put w.nodes (seen e "node") (commit_to_node n resources budget);
    })

abbrev unknown_allocation : String
unknown_allocation = "evidence %q names unknown allocation %q"

unfoldable pub secret_mounted : World → Evidence → Result World
secret_mounted w e = do
  a ← or_fail (Map.get w.allocations e.target) unknown_allocation
  refuse (seen e "secret" == "" || seen e "version" == "")
      "evidence %q must observe a secret name and version"
  ok (
      put_allocation w e.target
        (record a { secrets = Map.put a.secrets (seen e "secret") (seen e "version") }))

unfoldable pub network_attached : World → Evidence → Result World
network_attached w e = do
  a ← or_fail (Map.get w.allocations e.target) unknown_allocation
  refuse (seen e "address" == "") "evidence %q must observe an address"
  ok (put_allocation w e.target (record a { address = seen e "address" }))

unfoldable pub network_detached : World → Evidence → Result World
network_detached w e = elim (Map.get w.allocations e.target) [
  | none ↦ ok w
  | some a ↦ ok (put_allocation w e.target (record a { address = "" }))
]

-- Running is not ready.
unfoldable pub allocation_running : World → Evidence → Result World
allocation_running w e = do
  a ← or_fail (Map.get w.allocations e.target) unknown_allocation
  ok (put_allocation w e.target (record a { phase = running }))

-- Readiness lapsed if it was not held, or had expired by the time of this observation.
unfoldable pub lapsed : Allocation → Evidence → Bool
lapsed a e =
    not a.ready
    || (not (is_zero_time a.ready_expires_at) && not (before e.observed_at a.ready_expires_at))

unfoldable pub ready_allocation : Allocation → Evidence → Allocation
unfolding lapsed
ready_allocation a e =
    let is_ready = seen e "ready" == "true" in
    record a {
      ready_since =
          if not is_ready
          then 0
          else if lapsed a e || is_zero_time a.ready_since
          then e.observed_at
          else a.ready_since;
      ready = is_ready;
      ready_expires_at = e.expires_at;
    }

unfoldable pub apply_readiness : World → Allocation → Evidence → World
unfolding ready_allocation clear_backoff
apply_readiness w a e =
    let w' = put_allocation w e.target (ready_allocation a e) in
    if seen e "ready" == "true"
    then record (clear_backoff w' a.id) { known_good = Map.put w.known_good a.workload a.image }
    else w'

-- `allocation.ready` and `agent.ready`.
unfoldable pub allocation_ready : World → Evidence → Result World
unfolding apply_readiness
allocation_ready w e = do
  a ← or_fail (Map.get w.allocations e.target) unknown_allocation
  require (phase_is a.phase running) "allocation %q cannot be ready in phase %q"
  ok (apply_readiness w a e)

unfoldable pub allocation_stopped : World → Evidence → Result World
allocation_stopped w e = do
  a ← or_fail (Map.get w.allocations e.target) unknown_allocation
  ok (
      put_allocation (record_disruption w a "allocation.stopped" e.observed_at) e.target
        (record a { phase = stopped; ready = false; ready_since = 0 }))

unfoldable pub allocation_failed : World → Evidence → Result World
allocation_failed w e = do
  a ← or_fail (Map.get w.allocations e.target) unknown_allocation
  ok (
      record_failure
        (put_allocation w e.target (record a {
          phase = stopped;
          ready = false;
          ready_since = 0;
          exit_code = observed_int e "exit_code";
          restarts = observed_int e "restarts";
        }))
        e.target e.observed_at)

unfoldable pub release_resources : World → Allocation → World
release_resources w a = elim (Map.get w.nodes a.node) [
  | none ↦ w
  | some n ↦ record w {
    nodes = Map.put w.nodes a.node (record n { used = Resources.subtract n.used a.resources });
  }
]

unfoldable pub allocation_deleted : World → Evidence → Result World
unfolding release_resources
allocation_deleted w e = elim (Map.get w.allocations e.target) [
  | none ↦ ok w
  | some a ↦
      let w' = record_disruption (release_resources w a) a "allocation.deleted" e.observed_at in
      ok (record w' { allocations = Map.delete w'.allocations e.target })
]

abbrev pub blank_tool : ToolGrant
blank_tool = record { name = ""; scope = ""; mutating = false }

abbrev pub blank_tools : ℕ → List ToolGrant
blank_tools zero = []
blank_tools (suc n) = blank_tool ∷ blank_tools n

-- A negative count is a capacity that `make` refuses: the source panics, and this is an error.
unfoldable pub tools_of_count : ℤ → Result (List ToolGrant)
tools_of_count (pos n) = ok (blank_tools n)
tools_of_count (negsuc n) = err "panic: makeslice: cap out of range"

unfoldable pub tools_granted : World → Evidence → Result World
tools_granted w e = do
  a ← or_fail (Map.get w.allocations e.target) unknown_allocation
  require (phase_is a.phase created) "allocation %q cannot receive tools in phase %q"
  tools ← tools_of_count (observed_int e "count")
  ok (put_allocation w e.target (record a { tools = tools }))

unfoldable pub spend : Allocation → Budget → Allocation
spend a spent =
    let a' : Allocation = record a { spent = spent } in
    record a' { ready = if exhausted a' then false else a.ready }

-- Only tokens and cost are compared with what was recorded.
unfoldable pub agent_spent : World → Evidence → Result World
unfolding spend
agent_spent w e = do
  a ← or_fail (Map.get w.allocations e.target) unknown_allocation
  let spent = observed_budget e
  ok (
      if lt_ℤ spent.tokens a.spent.tokens || lt_ℤ spent.cost_millis a.spent.cost_millis
      then w
      else put_allocation w e.target (spend a spent))

unfoldable pub agent_draining : World → Evidence → Result World
agent_draining w e = do
  a ← or_fail (Map.get w.allocations e.target) unknown_allocation
  ok (
      put_allocation w e.target (record a {
        draining = true;
        task = elim (Map.get e.observed "task") [ none ↦ a.task | some t ↦ t ];
      }))

unfoldable pub allocation_drained : World → Evidence → Result World
allocation_drained w e = do
  a ← or_fail (Map.get w.allocations e.target) unknown_allocation
  let a' : Allocation = record a { draining = true; task = ""; ready = false; ready_since = 0 }
  ok (record_disruption (put_allocation w e.target a') a' "allocation.drained" e.observed_at)
