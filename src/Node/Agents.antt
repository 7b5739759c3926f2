-- ===== src/Node/Agents.antt =====
-- node/agent.go: the gates that bound agent workloads on a node. The mutex makes each operation one
-- step. `sprint` is `fmt.Sprint` of an integer.
pub mod Meters
pub mod Tokens
pub mod Limits
pub mod Envelopes
pub mod Identity
use a4s.Prelude.{
  ℕ, suc, ◌+◌, Bool, true, false, ◌&&◌, ◌||◌, not, Option, none, some, List, [], ◌∷◌, ◌++◌, String,
  ◌==◌, if◌then◌else◌, ℤ, pos, add_int, lt_ℤ, Result, ok, err, ◌>>=◌, ◌>>◌, refuse, require,
  or_fail,
}
use Prim.Native.String.{compare}
use Prim.Native.Nat.{Ordering}
use a4s.Prelude.Map
use a4s.Prelude.Map.{Map}
use a4s.Prelude.Map.Keys.{delete_where}
use a4s.Types.Budget
use a4s.Types.Budget.{Budget, zero_budget, floor_zero}
use a4s.Types.Goal.{ToolGrant, equal_tool}
use a4s.Types.Action.{Action, ActionKind, ProbeTarget}
use a4s.Types.Evidence.{Evidence, EvidenceKind}

-- `refusals` is an `int`.
pub record Meter : Type 0 where
  pub budget : Budget
  pub spent : Budget
  pub refusals : ℤ

-- `providers` is the source of reachability, if the node has one.
pub record Agents : Type 0 where
  pub providers : Option (String → Bool)
  pub envelopes : Map (List ToolGrant)
  pub tasks : Map String
  pub draining : Map Bool
  pub tokens : Map String
  pub meters : Map Meter

unfoldable pub new_agents : Agents
new_agents = record {
  providers = none;
  envelopes = Map.empty;
  tasks = Map.empty;
  draining = Map.empty;
  tokens = Map.empty;
  meters = Map.empty;
}

abbrev pub budget_exhausted : String
budget_exhausted = "allocation has exhausted its budget"

abbrev pub is_draining_error : String
is_draining_error = "allocation is draining and may not take new work"

abbrev pub unknown_token : String
unknown_token = "runtime token is not recognized"

abbrev pub tool_not_granted : String
tool_not_granted = "tool is not in the allocation's grant envelope"

abbrev pub not_reserved : String
not_reserved = "allocation %q holds no budget reservation"

-- `<` on texts.
abbrev pub text_before : String → String → Bool
text_before a b = elim (compare a b) [ Ordering.lt ↦ true | _ ↦ false ]

abbrev pub less : ToolGrant → ToolGrant → Bool
less a b = if not (a.name == b.name) then text_before a.name b.name else text_before a.scope b.scope

-- `sort.Slice`, which sorts a short slice by insertion.
unfoldable pub insert_grant : ToolGrant → List ToolGrant → List ToolGrant
insert_grant g [] = g ∷ []
insert_grant g (x ∷ xs) = let rest = insert_grant g xs in if less g x then g ∷ x ∷ xs else x ∷ rest

unfoldable pub sort_grants : List ToolGrant → List ToolGrant → List ToolGrant
unfolding insert_grant
sort_grants sorted [] = sorted
sort_grants sorted (g ∷ gs) = sort_grants (insert_grant g sorted) gs

unfoldable pub equal_grants : List ToolGrant → List ToolGrant → Bool
unfolding equal_tool
equal_grants [] [] = true
equal_grants (x ∷ xs) (y ∷ ys) = equal_tool x y && equal_grants xs ys
equal_grants _ _ = false

-- The lists differ in length exactly if their sorts do, so one comparison makes both tests.
unfoldable pub same_envelope : List ToolGrant → List ToolGrant → Bool
unfolding sort_grants equal_grants
same_envelope a b = equal_grants (sort_grants [] a) (sort_grants [] b)

unfoldable pub count_grants : List ToolGrant → ℕ
count_grants [] = 0
count_grants (_ ∷ gs) = suc (count_grants gs)

abbrev pub evidence : EvidenceKind → String → List (String × String) → Evidence
evidence kind target observed = record {
  kind = kind;
  target = target;
  source = "";
  observed_at = 0;
  expires_at = 0;
  observed = record { entries = observed };
}

-- Whether an envelope may be written over what the allocation holds.
abbrev pub may_grant : Option (List ToolGrant) → List ToolGrant → Bool
may_grant none tools = true
may_grant (some existing) tools = same_envelope existing tools

unfoldable pub grant : Agents → (ℤ → String) → Action → Result (Agents × Evidence)
unfolding ◌>>=◌ same_envelope count_grants
grant a sprint action = do
  refuse (action.target == "") "tool grant requires an allocation"
  require (may_grant (Map.get a.envelopes action.target) action.tools)
      "allocation %q already holds a different tool envelope"
  ok (
    record a { envelopes = Map.put a.envelopes action.target action.tools },
    evidence EvidenceKind.tools_granted action.target
        (("count", sprint (pos (count_grants action.tools))) ∷ []),
  )

-- `a.tasks[allocation]`, which is empty for an instance that holds none.
unfoldable pub task_of : Agents → String → String
task_of a allocation = elim (Map.get a.tasks allocation) [ none ↦ "" | some task ↦ task ]

unfoldable pub drain : Agents → Action → Result (Agents × Evidence)
unfolding ◌>>=◌ task_of
drain a action = do
  refuse (action.target == "") "drain requires an allocation"
  ok (
    record a { draining = Map.put a.draining action.target true },
    if task_of a action.target == ""
        then evidence EvidenceKind.allocation_drained action.target (("drained", "true") ∷ [])
        else evidence EvidenceKind.agent_draining action.target
            (("draining", "true") ∷ ("task", task_of a action.target) ∷ []),
  )

unfoldable pub execute : Agents → (ℤ → String) → Action → Result (Agents × Evidence)
unfolding grant drain
execute a sprint action = elim action.kind [
  | ActionKind.grant_tools ↦ grant a sprint action
  | ActionKind.drain_allocation ↦ drain a action
  | _ ↦ err "agent capability cannot perform %q"
]

unfoldable pub is_draining : Agents → String → Bool
is_draining a allocation = elim (Map.get a.draining allocation) [ none ↦ false | some b ↦ b ]

unfoldable pub may_claim : Agents → String → Result (Unit {0})
unfolding ◌>>=◌ is_draining task_of Budget.exhausts
may_claim a allocation = do
  m ← or_fail (Map.get a.meters allocation) not_reserved
  refuse (Budget.exhausts m.spent m.budget) budget_exhausted
  refuse (is_draining a allocation) is_draining_error
  require (task_of a allocation == "") "allocation %q already holds task %q"
