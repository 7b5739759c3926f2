-- ===== src/Node/Agents/Meters.antt =====
-- node/agent.go: what an instance may spend, and the tools that it may call.
use a4s.Prelude.{
  Bool, true, false, ◌&&◌, ◌||◌, not, Option, none, some, List, [], ◌∷◌, String, ◌==◌,
  if◌then◌else◌, ℤ, pos, add_int, lt_ℤ, Result, ok, err,
}
use a4s.Prelude.Map
use a4s.Types.Budget
use a4s.Types.Budget.{Budget, zero_budget, floor_zero}
use a4s.Types.Goal.{ToolGrant}
use a4s.Types.Action.{ProbeTarget}
use a4s.Types.Evidence.{Evidence, EvidenceKind}
use a4s.Node.Agents.{Agents, Meter, evidence, budget_exhausted, not_reserved, tool_not_granted}

unfoldable pub reserve : Agents → String → Budget → Agents
reserve a allocation budget = elim (Map.get a.meters allocation) [
  | none ↦ record a {
    meters =
        Map.put a.meters allocation
          (record { budget = budget; spent = zero_budget; refusals = pos 0 });
  }
  | some existing ↦ record a {
    meters = Map.put a.meters allocation (record existing { budget = budget });
  }
]

unfoldable pub clamp_budget : Budget → Budget
clamp_budget b = record {
  tokens = floor_zero b.tokens;
  cost_millis = floor_zero b.cost_millis;
  wall_seconds = floor_zero b.wall_seconds;
  tool_calls = floor_zero b.tool_calls;
}

-- A meter with what a runtime reports.
abbrev pub charged : Meter → Budget → Meter
charged m delta = record m { spent = Budget.add m.spent (clamp_budget delta) }

unfoldable pub spend : Agents → String → Budget → Agents × Budget × Bool
unfolding clamp_budget Budget.add Budget.exhausts
spend a allocation delta = elim (Map.get a.meters allocation) [
  | none ↦ (a, zero_budget, false)
  | some m ↦ (
    record a { meters = Map.put a.meters allocation (charged m delta) },
    (charged m delta).spent,
    not (Budget.exhausts (charged m delta).spent m.budget),
  )
]

unfoldable pub spent_by : Agents → String → Budget × Bool
spent_by a allocation = elim (Map.get a.meters allocation) [
  | none ↦ (zero_budget, false)
  | some m ↦ (m.spent, true)
]

unfoldable pub is_exhausted : Agents → String → Bool
unfolding Budget.exhausts
is_exhausted a allocation = elim (Map.get a.meters allocation) [
  | none ↦ false
  | some m ↦ Budget.exhausts m.spent m.budget
]

-- `fmt.Sprint` of a truth value.
abbrev pub sprint_bool : Bool → String
sprint_bool true = "true"
sprint_bool false = "false"

unfoldable pub spend_evidence : Agents → (ℤ → String) → String → Option Evidence
unfolding Budget.exhausts
spend_evidence a sprint allocation = elim (Map.get a.meters allocation) [
  | none ↦ none
  | some m ↦ some (
      evidence EvidenceKind.agent_spent allocation (
        ("tokens", sprint m.spent.tokens)
        ∷ ("cost_millis", sprint m.spent.cost_millis)
        ∷ ("wall_seconds", sprint m.spent.wall_seconds)
        ∷ ("tool_calls", sprint m.spent.tool_calls)
        ∷ ("exhausted", sprint_bool (Budget.exhausts m.spent m.budget))
        ∷ (if lt_ℤ (pos 0) m.refusals then ("tool_refusals", sprint m.refusals) ∷ [] else [])))
]

-- `Tools`, which is empty for an allocation without an envelope.
unfoldable pub tools_of : Agents → String → List ToolGrant
tools_of a allocation = elim (Map.get a.envelopes allocation) [ none ↦ [] | some tools ↦ tools ]

abbrev pub grants : String → String → List ToolGrant → Bool
grants tool scope [] = false
grants tool scope (g ∷ gs) = g.name == tool && g.scope == scope || grants tool scope gs

-- `Allows` and `allowsLocked`
unfoldable pub allows : Agents → String → String → String → Bool
unfolding tools_of
allows a allocation tool scope = grants tool scope (tools_of a allocation)

abbrev pub refused : Meter → Meter
refused m = record m { refusals = add_int m.refusals (pos 1) }

abbrev pub called : Meter → Meter
called m = record m { spent = record m.spent { tool_calls = add_int m.spent.tool_calls (pos 1) } }

unfoldable pub authorize_tool_call : Agents → String → String → String → Agents × Result (Unit {0})
unfolding allows Budget.exhausts
authorize_tool_call a allocation tool scope = elim (Map.get a.meters allocation) [
  | none ↦ (a, err not_reserved)
  | some m ↦
      if Budget.exhausts m.spent m.budget
      then (a, err budget_exhausted)
      else if not (allows a allocation tool scope)
      then (record a { meters = Map.put a.meters allocation (refused m) }, err tool_not_granted)
      else (record a { meters = Map.put a.meters allocation (called m) }, ok tt)
]

unfoldable pub tool_refusals : Agents → String → ℤ
tool_refusals a allocation = elim (Map.get a.meters allocation) [
  | none ↦ pos 0
  | some m ↦ m.refusals
]

-- `ObserveReadiness`: whether the target is ready, and what was observed.
unfoldable pub observe_readiness :
    Agents → (ℤ → String) → ProbeTarget → Result (Bool × List (String × String))
unfolding Budget.exhausts
observe_readiness a sprint target =
    let observed = ("probe", "agent") ∷ ("provider", target.provider) ∷ [] in
    if not (target.kind == "agent")
    then err "agent capability only serves agent probes"
    else if target.provider == ""
    then err "agent probe for %q names no provider"
    else elim (Map.get a.meters target.allocation) [
      | none ↦ ok (false, ("reason", "no budget reservation on this node") ∷ observed)
      | some m ↦
          let measured =
            ("tokens_spent", sprint m.spent.tokens)
            ∷ ("cost_millis_spent", sprint m.spent.cost_millis)
            ∷ observed in
          if Budget.exhausts m.spent m.budget
          then ok (false, ("reason", "budget exhausted") ∷ measured)
          else elim a.providers [
            | none ↦ err "node has no provider reachability source"
            | some reachable ↦
                if not (reachable target.provider)
                then ok (false, ("reason", "provider unreachable") ∷ measured)
                else ok (true, measured)
          ]
    ]
