-- ===== src/Kernel/Governor.antt =====
-- control/disruption.go and control/clusterbudget.go: the bounds on a whole proposal, which are
-- measured on the observed world.
use a4s.Prelude.{
  ℕ, zero, suc, ◌+◌, Bool, true, false, ◌&&◌, ◌||◌, some, none, List, [], ◌∷◌, String, ◌==◌, ℤ, pos,
  negsuc, lt_ℤ, le_ℤ, eqb, leb, if◌then◌else◌, Result, ok, ◌>>◌, require, refuse,
}
use a4s.Prelude.Map
use a4s.Types.Budget
use a4s.Types.Budget.{Budget}
use a4s.Types.Resources
use a4s.Types.Resources.{Resources}
use a4s.Types.World.{
  World, Allocation, Disruption, Time, now, active, failure_domain, phase_is, stopped,
}
use a4s.Types.Action.{Action, ActionKind, Proposal}
use a4s.Disruption.{later_than, default_disruption_window}
use a4s.Kernel.Policy.{Policy}
use a4s.Kernel.Rules.{mem}

abbrev pub size {ℓ} : {A : Type ℓ} → List A → ℕ
size [] = 0
size (_ ∷ xs) = suc (size xs)

-- `disruptiveKinds`
unfoldable pub is_disruptive : ActionKind → Bool
is_disruptive ActionKind.stop_allocation = true
is_disruptive ActionKind.delete_allocation = true
is_disruptive ActionKind.drain_allocation = true
is_disruptive _ = false

unfoldable pub disruptive_actions : List Action → List Action
unfolding is_disruptive
disruptive_actions [] = []
disruptive_actions (a ∷ as') =
    let rest = disruptive_actions as' in if is_disruptive a.kind then a ∷ rest else rest

-- `RecentDisruptions`. The source sorts them by time, and asks only how many there are and which
-- domains they name.
unfoldable pub recent_disruptions : World → Time → ℤ → List Disruption
unfolding later_than
recent_disruptions w t (negsuc _) = []
recent_disruptions w t (pos zero) = []
recent_disruptions w t (pos (suc n)) = later_than t (suc n) w.disruptions

-- The domains of a ledger; a disruption with no domain names none.
unfoldable pub ledger_domains : List Disruption → List String
ledger_domains [] = []
ledger_domains (d ∷ ds) =
    let rest = ledger_domains ds in if d.domain == "" then rest else d.domain ∷ rest

-- `world.Nodes[id].FailureDomain()`, which is empty for a node that does not exist.
abbrev pub domain_of : World → String → String
domain_of w id = elim (Map.get w.nodes id) [ none ↦ "" | some n ↦ failure_domain n ]

unfoldable pub action_domain : World → Action → String
action_domain w a = elim (Map.get w.allocations a.target) [
  | none ↦ domain_of w a.node
  | some x ↦ if x.node == "" then domain_of w a.node else domain_of w x.node
]

-- The set `proposed`: each domain once.
unfoldable pub proposed_domains : World → List Action → List String
unfolding action_domain
proposed_domains w [] = []
proposed_domains w (a ∷ as') =
    let rest = proposed_domains w as' in
    let domain = action_domain w a in
    if domain == "" || mem domain rest then rest else domain ∷ rest

-- Whether every element of a list is `domain`.
unfoldable pub only_domain : String → List String → Bool
only_domain domain [] = true
only_domain domain (d ∷ ds) = d == domain && only_domain domain ds

unfoldable pub all_only : List String → List String → Bool
unfolding only_domain
all_only [] busy = true
all_only (d ∷ ds) busy = only_domain d busy && all_only ds busy

-- `if window <= 0 { window = DefaultDisruptionWindow }`
abbrev pub window_of : ℤ → ℤ
window_of window = if le_ℤ window (pos 0) then pos default_disruption_window else window

unfoldable pub check_window : Policy → World → Time → List Action → Result (Unit {0})
unfolding recent_disruptions
check_window p w t disruptive =
    if le_ℤ p.max_disruptions_per_window (pos 0)
    then ok tt
    else refuse
        (lt_ℤ p.max_disruptions_per_window
          (pos (size (recent_disruptions w t (window_of p.disruption_window)) + size disruptive)))
        "disruption budget exhausted"

unfoldable pub check_cooldown : Policy → World → Time → List Action → Result (Unit {0})
unfolding recent_disruptions proposed_domains ledger_domains all_only
check_cooldown p w t disruptive = if le_ℤ p.disruption_cooldown (pos 0) then ok tt else do
  let proposed = proposed_domains w disruptive
  require (leb (size proposed) 1) "proposal disrupts %d failure domains at once"
  require (all_only proposed (ledger_domains (recent_disruptions w t p.disruption_cooldown)))
      "failure domain %q was disrupted within the last %s; wait before disrupting %q"

unfoldable pub check_disruption_budget : Time → Policy → World → Proposal → Result (Unit {0})
unfolding disruptive_actions check_window check_cooldown
check_disruption_budget clock p w proposal =
    let disruptive = disruptive_actions proposal.actions in
    if eqb (size disruptive) 0
    then ok tt
    else do check_window p w (now clock w) disruptive; check_cooldown p w (now clock w) disruptive

-- `world.Backoff[target].Active(now)`
abbrev pub backing_off : World → Time → String → Bool
backing_off w t target = elim (Map.get w.backoff target) [ none ↦ false | some b ↦ active b t ]

-- The kinds that a backoff holds back.
abbrev pub adds_work : ActionKind → Bool
adds_work ActionKind.create_allocation = true
adds_work ActionKind.start_allocation = true
adds_work _ = false

unfoldable pub check_backoff : World → Time → List Action → Result (Unit {0})
check_backoff w t [] = ok tt
check_backoff w t (a ∷ as') = do
  refuse (adds_work a.kind && backing_off w t a.target)
      "target %q failed %d times and is in backoff until %s"
  check_backoff w t as'

pub record ClusterCommitment : Type 0 where
  pub allocations : ℕ
  pub resources : Resources
  pub budget : Budget

abbrev pub no_commitment : ClusterCommitment
no_commitment = record {
  allocations = 0;
  resources = record { cpu_millis = pos 0; memory_mb = pos 0 };
  budget = Budget.zero_budget;
}

abbrev pub commit : ClusterCommitment → Resources → Budget → ClusterCommitment
commit c r b = record {
  allocations = suc c.allocations;
  resources = Resources.add c.resources r;
  budget = Budget.add c.budget b;
}

-- The loop of `Commitment`, with the total so far.
unfoldable pub commitment_from : ClusterCommitment → List (String × Allocation) → ClusterCommitment
commitment_from total [] = total
commitment_from total ((_, a) ∷ m) =
    commitment_from (if phase_is a.phase stopped then total else commit total a.resources a.budget)
      m

unfoldable pub commitment : World → ClusterCommitment
unfolding commitment_from
commitment w = commitment_from no_commitment w.allocations.entries

abbrev pub creates_allocation : ActionKind → Bool
creates_allocation ActionKind.create_allocation = true
creates_allocation _ = false

unfoldable pub adding_from : ClusterCommitment → List Action → ClusterCommitment
adding_from total [] = total
adding_from total (a ∷ as') =
    adding_from (if creates_allocation a.kind then commit total a.resources a.budget else total) as'

unfoldable pub exceeds : ℤ → ℤ → Bool
exceeds total ceiling = lt_ℤ (pos 0) ceiling && lt_ℤ ceiling total

unfoldable pub check_cluster_budget : Policy → World → Proposal → Result (Unit {0})
unfolding adding_from commitment exceeds
check_cluster_budget p w proposal =
    let adding = adding_from no_commitment proposal.actions in
    let held = commitment w in
    let total = Resources.add held.resources adding.resources in
    let committed = Budget.add held.budget adding.budget in
    if eqb adding.allocations 0 then ok tt else do
      refuse (exceeds (pos (held.allocations + adding.allocations)) p.max_allocations)
          "cluster allocation ceiling reached: %d live plus %d proposed exceeds %d"
      refuse (exceeds total.cpu_millis p.cluster_ceiling.cpu_millis) "cluster cpu ceiling reached"
      refuse (exceeds total.memory_mb p.cluster_ceiling.memory_mb) "cluster memory ceiling reached"
      refuse (exceeds committed.tokens p.cluster_budget.tokens)
          "cluster agent %s ceiling reached: %d committed exceeds %d"
      refuse (exceeds committed.cost_millis p.cluster_budget.cost_millis)
          "cluster agent %s ceiling reached: %d committed exceeds %d"
      refuse (exceeds committed.wall_seconds p.cluster_budget.wall_seconds)
          "cluster agent %s ceiling reached: %d committed exceeds %d"
      refuse (exceeds committed.tool_calls p.cluster_budget.tool_calls)
          "cluster agent %s ceiling reached: %d committed exceeds %d"
