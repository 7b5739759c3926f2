-- ===== src/Kernel/Simulate.antt =====
-- control/executor.go, `simulateAction`: the intended effect of an action on the world that a
-- plan is checked against.
use a4s.Prelude.{
  true, false, some, none, [], ◌∷◌, ◌++◌, String, ◌==◌, pos, if◌then◌else◌, Result, ok, err, ◌>>=◌,
  ◌>>◌, refuse, or_fail, incr_uint64,
}
use a4s.Prelude.Map
use a4s.Types.Budget
use a4s.Types.Resources
use a4s.Types.World.{
  World, Node, Volume, Allocation, Route, running, stopped, quiesced, transferred,
}
use a4s.Types.Action.{Action, ActionKind}
use a4s.Projection.Volumes.{has, take_volume, hold_volume, release_volume, new_volume, put_volume}
use a4s.Projection.Allocations.{commit_to_node, new_allocation, put_allocation}
use a4s.Projection.Snapshots.{prunable_snapshots, drop_snapshots}

-- An action on the volume that it names; a volume that does not exist is left alone.
unfoldable pub with_volume : World → Action → (String → Volume → World) → Result World
with_volume w a f = do
  ref ← or_fail a.volume "action requires a volume reference"
  ok (elim (Map.get w.volumes ref.name) [ none ↦ w | some v ↦ f ref.name v ])

-- Such an action with a snapshot, which must be named too.
unfoldable pub with_snapshot : World → Action → (String → Volume → World) → Result World
unfolding with_volume
with_snapshot w a f = do
  refuse (a.snapshot == "") "action requires a volume reference and snapshot id"
  with_volume w a f

unfoldable pub with_allocation : World → Action → (Allocation → World) → Result World
with_allocation w a f = do
  allocation ← or_fail (Map.get w.allocations a.target) "allocation %q does not exist"
  ok (f allocation)

unfoldable pub with_node : World → String → (Node → Node) → Result World
with_node w id f = do
  n ← or_fail (Map.get w.nodes id) "node %q does not exist"
  ok (record w { nodes = Map.put w.nodes id (f n) })

unfoldable pub simulate_create_allocation : World → Action → Result World
unfolding commit_to_node
simulate_create_allocation w a = do
  n ← or_fail (Map.get w.nodes a.node) "node %q does not exist"
  ok (record w {
    allocations =
        Map.put w.allocations a.target
          (new_allocation a.target a.workload a.replica a.node a.image a.resources a.budget);
    nodes = Map.put w.nodes a.node (commit_to_node n a.resources a.budget);
  })

unfoldable pub simulate_create_volume : World → Action → Result World
simulate_create_volume w a = do
  ref ← or_fail a.volume "create volume requires a volume reference"
  ok (
      if has w.volumes ref.name
      then w
      else put_volume w ref.name (new_volume ref.name a.node (pos 0)))

unfoldable pub simulate_attach_volume : World → Action → Result World
unfolding take_volume hold_volume
simulate_attach_volume w a = do
  ref ← or_fail a.volume "attach volume requires a volume reference"
  v ← or_fail (Map.get w.volumes ref.name) "volume %q does not exist"
  allocation ← or_fail (Map.get w.allocations a.target) "allocation %q does not exist"
  ok (hold_volume w ref.name (take_volume v a.target) a.target allocation)

abbrev simulated : String
simulated = "simulated"

unfoldable pub simulate_backup_database : Action → Volume → Volume
simulate_backup_database a v = record v {
  snapshots = Map.put v.snapshots a.snapshot simulated;
  snapshot_order =
      if has v.snapshots a.snapshot then v.snapshot_order else v.snapshot_order ++ a.snapshot ∷ [];
  last_snapshot = a.snapshot;
}

unfoldable pub simulate_quiesce : Action → Volume → Volume
simulate_quiesce a v = record v {
  handoff =
      some (record { from = v.node; to = a.node; phase = quiesced; snapshot = ""; checksum = "" });
}

unfoldable pub simulate_transfer : Volume → Volume
simulate_transfer v = elim v.handoff [
  | none ↦ v
  | some h ↦ record v { handoff = some (record h { phase = transferred }) }
]

unfoldable pub simulate_adopt : Volume → Volume
simulate_adopt v = elim v.handoff [
  | none ↦ v
  | some h ↦ record v { node = h.to; generation = incr_uint64 v.generation; handoff = none }
]

unfoldable pub simulate_prune : Action → Volume → Volume
unfolding drop_snapshots prunable_snapshots
simulate_prune a v = if a.dry_run then v else drop_snapshots v (prunable_snapshots v a.retain)

unfoldable pub simulate_mount_secret : World → Action → Result World
simulate_mount_secret w a = do
  allocation ← or_fail (Map.get w.allocations a.target) "allocation %q does not exist"
  ref ← or_fail a.secret "mount secret requires a secret reference"
  ok (
      put_allocation w a.target
        (record allocation { secrets = Map.put allocation.secrets ref.name ref.version }))

unfoldable pub free_node : World → Allocation → World
free_node w allocation = elim (Map.get w.nodes allocation.node) [
  | none ↦ w
  | some n ↦ record w {
    nodes = Map.put w.nodes allocation.node (record n {
      used = Resources.subtract n.used allocation.resources;
      budget_used = Budget.subtract n.budget_used allocation.budget;
    });
  }
]

unfoldable pub simulate_delete_allocation : World → Action → Result World
unfolding with_allocation free_node
simulate_delete_allocation w a = with_allocation w a λ allocation. record (free_node w allocation) {
  allocations = Map.delete w.allocations a.target;
}

abbrev new_route : Action → Route
new_route a = record {
  host = a.target;
  workload = a.workload;
  port = a.port;
  exposure = a.exposure;
}

unfoldable pub simulate_kind : ActionKind → World → Action → Result World
unfolding with_volume with_snapshot with_allocation with_node release_volume
simulate_kind ActionKind.pull_image w a =
    with_node w a.node λ n. record n { images = Map.put n.images a.image true }
simulate_kind ActionKind.create_allocation w a = simulate_create_allocation w a
simulate_kind ActionKind.create_volume w a = simulate_create_volume w a
simulate_kind ActionKind.attach_volume w a = simulate_attach_volume w a
simulate_kind ActionKind.cordon_node w a =
    with_node w a.target λ n. record n { cordoned = true; cordon_reason = a.reason }
simulate_kind ActionKind.uncordon_node w a =
    with_node w a.target λ n. record n { cordoned = false; cordon_reason = "" }
simulate_kind ActionKind.detach_volume w a = with_volume w a (release_volume w)
simulate_kind ActionKind.snapshot_volume w a = with_volume w a λ name v.
    put_volume w name
      (record v { snapshots = Map.put v.snapshots simulated simulated; last_snapshot = simulated })
simulate_kind ActionKind.quiesce_volume w a =
    with_volume w a λ name v. put_volume w name (simulate_quiesce a v)
simulate_kind ActionKind.transfer_volume w a =
    with_volume w a λ name v. put_volume w name (simulate_transfer v)
simulate_kind ActionKind.adopt_volume w a =
    with_volume w a λ name v. put_volume w name (simulate_adopt v)
simulate_kind ActionKind.database_backup w a =
    with_snapshot w a λ name v. put_volume w name (simulate_backup_database a v)
simulate_kind ActionKind.verify_backup w a = with_snapshot w a λ _ _. w
simulate_kind ActionKind.apply_policy w a = ok w
simulate_kind ActionKind.publish_zone w a = ok w
simulate_kind ActionKind.collect_images w a = ok w
simulate_kind ActionKind.prune_snapshots w a =
    with_volume w a λ name v. put_volume w name (simulate_prune a v)
simulate_kind ActionKind.backup_snapshot w a =
    with_snapshot w a
      λ name v. put_volume w name (record v { backups = Map.put v.backups a.snapshot simulated })
simulate_kind ActionKind.restore_snapshot w a =
    with_snapshot w a λ name v. put_volume w name (record v { restored_from = a.snapshot })
simulate_kind ActionKind.mount_secret w a = simulate_mount_secret w a
simulate_kind ActionKind.attach_network w a =
    with_allocation w a
      λ allocation. put_allocation w a.target (record allocation { address = simulated })
simulate_kind ActionKind.start_allocation w a =
    with_allocation w a
      λ allocation. put_allocation w a.target (record allocation { phase = running; ready = true })
simulate_kind ActionKind.stop_allocation w a =
    with_allocation w a
      λ allocation. put_allocation w a.target (record allocation { phase = stopped; ready = false })
simulate_kind ActionKind.delete_allocation w a = simulate_delete_allocation w a
simulate_kind ActionKind.grant_tools w a =
    with_allocation w a
      λ allocation. put_allocation w a.target (record allocation { tools = a.tools })
simulate_kind ActionKind.drain_allocation w a =
    with_allocation w a
      λ allocation. put_allocation w a.target (record allocation { draining = true; task = "" })
simulate_kind ActionKind.publish_route w a =
    ok (record w { routes = Map.put w.routes a.target (new_route a) })
simulate_kind ActionKind.probe_readiness w a = err "unsupported action %q"
simulate_kind (ActionKind.other _) w a = err "unsupported action %q"
