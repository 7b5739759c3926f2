-- ===== src/Kernel/Rules.antt =====
-- control/policy.go, control/validate.go and control/spread.go: the tests that the validators
-- share. `clock` is the wall clock, which only a world that was never observed is read by.
use a4s.Prelude.{
  ℕ, Bool, true, false, ◌&&◌, ◌||◌, not, none, some, List, [], ◌∷◌, String, ◌==◌, ℤ, pos, lt_ℤ,
  le_ℤ, sub_int, if◌then◌else◌,
}
use a4s.Prelude.Map
use a4s.Prelude.Map.{Map, count}
use a4s.Types.Resources
use a4s.Types.Goal.{Goal, Constraints, ToolGrant, SecretRef, VolumeRef, equal_tool, equal_secret}
use a4s.Types.World.{
  World, Node, Allocation, Time, now, valid, ready_at, exhausted, failure_domain, phase_is, stopped,
}

-- `m[key]` on a map of texts, which is empty for a missing key.
abbrev pub text_at : Map String → String → String
text_at m k = elim (Map.get m k) [ none ↦ "" | some v ↦ v ]

abbrev pub mem : String → List String → Bool
mem s [] = false
mem s (x ∷ xs) = x == s || mem s xs

abbrev pub is_empty {ℓ} : {A : Type ℓ} → List A → Bool
is_empty [] = true
is_empty (_ ∷ _) = false

abbrev pub any_value {ℓ} : {V : Type ℓ} → (V → Bool) → List (String × V) → Bool
any_value p [] = false
any_value p ((_, v) ∷ m) = p v || any_value p m

-- The labels that a constraint requires.
abbrev pub labels_match : Map String → List (String × String) → Bool
labels_match labels [] = true
labels_match labels ((key, value) ∷ required) =
    text_at labels key == value && labels_match labels required

unfoldable pub node_allowed : Constraints → Node → Bool
node_allowed c n =
    (is_empty c.allowed_nodes || mem n.id c.allowed_nodes)
    && labels_match n.labels c.required_labels.entries

unfoldable pub has_approval : Time → World → String → String → Bool
has_approval clock w goal_id scope =
    any_value (λ a. a.goal_id == goal_id && a.scope == scope && valid a (now clock w))
      w.approvals.entries

unfoldable pub disruption_floor : Goal → ℤ
disruption_floor g =
    if le_ℤ g.workload.replicas (pos 1) then pos 0 else sub_int g.workload.replicas (pos 1)

unfoldable pub serves : String → Time → Allocation → Bool
serves workload t a = a.workload == workload && ready_at a t

unfoldable pub serving_allocations : Time → Goal → World → ℕ
unfolding serves count
serving_allocations clock g w = count (serves g.workload.name (now clock w)) w.allocations

unfoldable pub matches_ready : Time → Goal → World → Allocation → Bool
unfolding node_allowed Resources.equal
matches_ready clock g w a = elim (Map.get w.nodes a.node) [
  | none ↦ false
  | some n ↦
      ready_at a (now clock w)
      && a.workload == g.workload.name
      && a.image == g.workload.image
      && Resources.equal a.resources g.workload.resources
      && node_allowed g.constraints n
      && not (a.draining || exhausted a)
]

unfoldable pub matching_ready_allocations : Time → Goal → World → ℕ
unfolding matches_ready count
matching_ready_allocations clock g w = count (matches_ready clock g w) w.allocations

abbrev pub mem_secret : SecretRef → List SecretRef → Bool
mem_secret ref [] = false
mem_secret ref (x ∷ xs) = equal_secret x ref || mem_secret ref xs

unfoldable pub goal_declares_secret : Goal → SecretRef → Bool
goal_declares_secret g ref = mem_secret ref g.workload.secrets

unfoldable pub authorized_replicas : Goal → World → ℤ
authorized_replicas g w = elim g.workload.runtime [
  | none ↦ g.workload.replicas
  | some r ↦ if r.queue == "" then g.workload.replicas else elim (Map.get w.queues r.queue) [
    | none ↦ g.workload.replicas
    | some q ↦
        if not (q.workload == g.workload.name)
        then g.workload.replicas
        else if lt_ℤ g.workload.replicas q.max_workers
        then q.max_workers
        else g.workload.replicas
  ]
]

abbrev pub mem_tool : ToolGrant → List ToolGrant → Bool
mem_tool t [] = false
mem_tool t (x ∷ xs) = equal_tool x t || mem_tool t xs

unfoldable pub goal_declares_tool : Goal → ToolGrant → Bool
goal_declares_tool g t = elim g.workload.runtime [ none ↦ false | some r ↦ mem_tool t r.tools ]

abbrev pub all_declared : Goal → List ToolGrant → Bool
all_declared g [] = true
all_declared g (t ∷ ts) = goal_declares_tool g t && all_declared g ts

unfoldable pub action_grants_mutating_tool : List ToolGrant → Bool
action_grants_mutating_tool [] = false
action_grants_mutating_tool (t ∷ ts) = t.mutating || action_grants_mutating_tool ts

unfoldable pub declares_volume : List VolumeRef → String → Bool
declares_volume [] name = false
declares_volume (v ∷ vs) name = v.name == name || declares_volume vs name

-- What counts towards the occupancy of a failure domain.
unfoldable pub occupies : World → String → String → Allocation → Bool
occupies w workload domain a =
    if not (a.workload == workload) || phase_is a.phase stopped
    then false
    else elim (Map.get w.nodes a.node) [ none ↦ false | some n ↦ failure_domain n == domain ]

-- `DomainOccupancy(world, workload)[domain]`
unfoldable pub domain_occupancy : World → String → String → ℕ
unfolding occupies count
domain_occupancy w workload domain = count (occupies w workload domain) w.allocations
