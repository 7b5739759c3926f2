-- ===== src/Kernel/Fabric.antt =====
-- control/policy.go and control/node_lifecycle.go: the validators of the actions on nodes, rules,
-- names, images and routes.
use a4s.Prelude.{
  Bool, true, ◌&&◌, not, List, [], ◌∷◌, String, ◌==◌, pos, lt_ℤ, eq_ℤ, if◌then◌else◌, Result, ◌>>=◌,
  ◌>>◌, require, refuse, or_fail,
}
use a4s.Prelude.Map
use a4s.Types.Goal.{Goal}
use a4s.Types.World.{World, Allocation, Time}
use a4s.Types.Action.{Action}
use a4s.Projection.Volumes.{has}
use a4s.Kernel.Rules.{is_empty, mem, has_approval, matching_ready_allocations}

-- control/netpolicy.go, `PolicyTable`.
abbrev pub policy_table : String
policy_table = "a4s"

unfoldable pub validate_apply_policy : Goal → World → Action → Result (Unit {0})
validate_apply_policy g w a = do
  refuse (a.node == "") "apply policy requires a node"
  require (has w.nodes a.node) "node %q does not exist"
  p ← or_fail a.policy "apply policy requires a compiled ruleset"
  require (p.node == a.node) "policy was compiled for node %q but is addressed to %q"
  require (p.table == policy_table) "policy must target the %q table, not %q"
  refuse (is_empty p.rules) "compiled policy holds no rules"

unfoldable pub validate_publish_zone : Goal → World → Action → Result (Unit {0})
validate_publish_zone g w a = do
  refuse (a.node == "") "publish zone requires a node"
  require (has w.nodes a.node) "node %q does not exist"
  z ← or_fail a.zone "publish zone requires a zone"
  require (z.node == a.node) "zone was built for node %q but is addressed to %q"

-- The images that an allocation references. `World.ProtectedImages` sorts them and drops
-- repeats; only whether an image is among them is asked.
unfoldable pub protected_images : List (String × Allocation) → List String
protected_images [] = []
protected_images ((_, a) ∷ m) =
    let rest = protected_images m in if a.image == "" then rest else a.image ∷ rest

unfoldable pub all_among : List String → List String → Bool
all_among [] declared = true
all_among (image ∷ images) declared = mem image declared && all_among images declared

unfoldable pub validate_collect_images : Goal → World → Action → Result (Unit {0})
unfolding protected_images all_among
validate_collect_images g w a = do
  refuse (a.node == "") "collect images requires a node"
  n ← or_fail (Map.get w.nodes a.node) "node %q is not healthy enough to collect images"
  require n.healthy "node %q is not healthy enough to collect images"
  require (all_among (protected_images w.allocations.entries) a.protected_images)
      "collect images must protect %q, which an allocation still references"

unfoldable pub validate_publish_route : Time → Goal → World → Action → Result (Unit {0})
validate_publish_route clock g w a = do
  r ← or_fail g.route "goal does not request a route"
  require (a.target == r.host && eq_ℤ a.port r.port && a.exposure == r.exposure)
      "route differs from goal"
  require (a.workload == g.workload.name) "workload differs from goal"
  refuse (a.exposure == "public" && not (has_approval clock w g.id "public-route"))
      "public route requires public-route approval"
  refuse (lt_ℤ (pos (matching_ready_allocations clock g w)) g.workload.replicas)
      "workload is not ready"

unfoldable pub validate_cordon_node : Goal → World → Action → Result (Unit {0})
validate_cordon_node g w a = do
  refuse (a.target == "") "cordon requires a node"
  require (has w.nodes a.target) "node %q does not exist"

unfoldable pub validate_uncordon_node : Goal → World → Action → Result (Unit {0})
validate_uncordon_node g w a = do
  refuse (a.target == "") "uncordon requires a node"
  require (has w.nodes a.target) "node %q does not exist"
