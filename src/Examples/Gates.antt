-- ===== src/Examples/Gates.antt =====
-- The theorems on the agents' gates and on the broker, applied.
use a4s.Prelude.{
  ℕ, ◌+◌, ◌≤◌, ◌<◌, ◌≡◌, refl, true, false, some, [], ◌∷◌, String, arith, ok, err, ℤ, pos,
  int64_half, InInt64, ◌+ℤ◌,
}
use a4s.Prelude.Map
use a4s.Prelude.Map.{Map}
use a4s.Types.Budget
use a4s.Types.Budget.{Budget, zero_budget}
use a4s.Types.Goal.{ToolGrant}
use a4s.Types.Action.{Action, ActionKind}
use a4s.Types.Evidence.{Evidence, EvidenceKind}
use a4s.Node.Queue
use a4s.Node.Queue.{Queue, QueueTask, claim}
use a4s.Node.Agents.{Agents, Meter, new_agents, grant, may_claim, evidence, budget_exhausted}
use a4s.Node.Agents.Meters.{spend, authorize_tool_call, allows}
use a4s.Node.Agents.Tokens.{issue_token, resolve}
use a4s.Node.Agents.Limits.{call_each, call_each-bounded, Metered, Uses, Uses-refused, SpentUp}
use a4s.Node.Agents.Envelopes.{grant-allows}
use a4s.Node.Agents.Identity.{issue_token-resolve}
use a4s.Node.Broker
use a4s.Node.Broker.{QueueBroker}
use a4s.Node.Broker.Works.{Works, new_broker}
use a4s.Examples.Cluster.{plain_action}

abbrev search_tool : ToolGrant
search_tool = record { name = "search"; scope = "web"; mutating = false }

abbrev ceiling : Budget
ceiling = record {
  tokens = pos 1000;
  cost_millis = pos 1000;
  wall_seconds = pos 1000;
  tool_calls = pos 2;
}

abbrev fresh_meter : Meter
fresh_meter = record { budget = ceiling; spent = zero_budget; refusals = pos 0 }

abbrev metered : Agents
metered = record new_agents {
  envelopes = record { entries = ("a1", search_tool ∷ []) ∷ [] };
  meters = record { entries = ("a1", fresh_meter) ∷ [] };
}

metered-Metered : Metered metered "a1" 2 0
unfolding Map.get
metered-Metered = (fresh_meter, refl, refl, refl, ground arith)

small : 2 < int64_half
small = ground arith

call_each-bounded_example :
    (call_each metered "a1" (("search", "web") ∷ ("search", "web") ∷ ("search", "web") ∷ [])).1 + 0
    ≤ 2
call_each-bounded_example =
    call_each-bounded (("search", "web") ∷ ("search", "web") ∷ ("search", "web") ∷ []) metered "a1"
      2 0 small metered-Metered

abbrev spent_meter : Meter
spent_meter = record fresh_meter { spent = record zero_budget { tokens = pos 1000 } }

abbrev spent_up : Agents
spent_up = record metered { meters = record { entries = ("a1", spent_meter) ∷ [] } }

spent_up-SpentUp : SpentUp spent_up "a1"
unfolding Map.get Budget.exhausts
spent_up-SpentUp = (spent_meter, refl, refl)

abbrev five : Budget
five = record zero_budget { tokens = pos 5 }

in_range : (n : ℕ) → n < int64_half → InInt64 (pos n)
in_range n h = (h, ground arith)

five-Uses : Uses "a1" spent_up (spend spent_up "a1" five).0
unfolding Map.get ◌+ℤ◌
five-Uses =
    Uses.spends spent_meter five Uses.start refl (in_range 1005 (ground arith))
      (in_range 0 (ground arith)) (in_range 0 (ground arith)) (in_range 0 (ground arith))

Uses-refused_example :
    (authorize_tool_call (spend spent_up "a1" five).0 "a1" "search" "web"
      ≡ ((spend spent_up "a1" five).0, err budget_exhausted))
    × (may_claim (spend spent_up "a1" five).0 "a1" ≡ err budget_exhausted)
Uses-refused_example = Uses-refused "search" "web" five-Uses spent_up-SpentUp

abbrev grant_again : Action
grant_again = record (plain_action "act1" ActionKind.grant_tools "a1") { tools = search_tool ∷ [] }

abbrev one_text : ℤ → String
one_text n = "1"

abbrev granted : Evidence
granted = evidence EvidenceKind.tools_granted "a1" (("count", "1") ∷ [])

granted_again : grant metered one_text grant_again ≡ ok (metered, granted)
unfolding grant Map.get Map.put
granted_again = refl

grant-allows_example : allows metered "a1" "search" "web" ≡ allows metered "a1" "search" "web"
unfolding Map.get
grant-allows_example =
    grant-allows metered metered one_text grant_again granted (search_tool ∷ []) "a1" "search" "web"
      granted_again refl

abbrev leaked : Agents
leaked = record metered { tokens = record { entries = ("old", "a1") ∷ ("key", "a2") ∷ [] } }

abbrev reissued : Agents
reissued = record metered { tokens = record { entries = ("key", "a2") ∷ ("new", "a1") ∷ [] } }

new_token : issue_token leaked (some "new") "a1" ≡ ok ("new", reissued)
unfolding issue_token Map.put
new_token = refl

new_resolves : resolve reissued "new" ≡ ok "a1"
unfolding resolve Map.get
new_resolves = refl

issue_token-resolve_example : ◌≡◌ {A = String} "new" "new"
issue_token-resolve_example =
    issue_token-resolve leaked reissued "new" "new" "new" "a1" new_token new_resolves

-- The instance a1 holds a task.
abbrev holding : Agents
holding = record leaked { tasks = record { entries = ("a1", "t1") ∷ [] } }

abbrev started : QueueBroker
started = new_broker "work" "agents"

-- A budget is reserved for a1.
abbrev broker : QueueBroker
broker = record started { agents = metered }

abbrev stocked : QueueBroker
stocked = record broker { queue = (Queue.enqueue started.queue 10 (ok tt) "t1" "").0 }

abbrev working : QueueBroker
working = (Broker.claim stocked 20 (ok tt) "a1").0

abbrev drain_other : Action
drain_other = plain_action "act2" ActionKind.drain_allocation "a2"

abbrev draining : Agents
draining = record working.agents { draining = record { entries = ("a2", true) ∷ [] } }

abbrev drained : Evidence
drained = evidence EvidenceKind.allocation_drained "a2" (("drained", "true") ∷ [])

abbrev held : QueueTask
held = record {
  id = "t1";
  payload = "";
  enqueued_at = 10;
  claim = some (record { allocation = "a1"; expires_at = 20 + 900000000000 });
  attempts = 1;
}
