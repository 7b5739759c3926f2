-- ===== src/Projection/Nodes.antt =====
-- control/projection.go, the cases of `projectInto` on nodes, routes, approvals and queues.
use a4s.Prelude.{
  Bool, true, false, ◌&&◌, ◌||◌, not, Option, none, some, List, [], ◌∷◌, String, ◌==◌,
  if◌then◌else◌, Result, ok, ◌>>=◌, ◌>>◌, require, refuse, or_fail, to_uint64,
}
use a4s.Prelude.Map
use a4s.Prelude.Map.{Map}
use a4s.Types.World.{World, Node, is_zero_time, before, ProviderReach}
use a4s.Types.Evidence.{Evidence, seen, observed_int}
use a4s.Projection.Snapshots.{split_lines}

abbrev pub put_node : World → String → Node → World
put_node w id n = record w { nodes = Map.put w.nodes id n }

abbrev unknown_node : String
unknown_node = "evidence %q names unknown node %q"

unfoldable pub image_present : World → Evidence → Result World
image_present w e = do
  n ← or_fail (Map.get w.nodes (seen e "node")) unknown_node
  refuse (seen e "image" == "") "evidence %q must observe an image"
  ok (put_node w (seen e "node") (record n { images = Map.put n.images (seen e "image") true }))

unfoldable pub policy_applied : World → Evidence → Result World
policy_applied w e = do
  n ← or_fail (Map.get w.nodes e.target) unknown_node
  ok (put_node w e.target (record n { policy_fingerprint = seen e "fingerprint" }))

unfoldable pub zone_published : World → Evidence → Result World
zone_published w e = do
  n ← or_fail (Map.get w.nodes e.target) unknown_node
  ok (put_node w e.target (record n { zone_fingerprint = seen e "fingerprint" }))

unfoldable pub delete_all {ℓ} : {V : Type ℓ} → Map V → List String → Map V
delete_all m [] = m
delete_all m (k ∷ ks) = delete_all (Map.delete m k) ks

unfoldable pub images_collected : World → Evidence → Result World
images_collected w e = do
  n ← or_fail (Map.get w.nodes e.target) unknown_node
  ok (
      put_node w e.target
        (record n { images = delete_all n.images (split_lines (seen e "reclaimed")) }))

unfoldable pub node_cordoned : World → Evidence → Result World
node_cordoned w e = do
  n ← or_fail (Map.get w.nodes e.target) unknown_node
  ok (put_node w e.target (record n { cordoned = true; cordon_reason = seen e "reason" }))

unfoldable pub node_uncordoned : World → Evidence → Result World
node_uncordoned w e = do
  n ← or_fail (Map.get w.nodes e.target) unknown_node
  ok (put_node w e.target (record n { cordoned = false; cordon_reason = "" }))

-- `node.reachable` and `node.unreachable`.
unfoldable pub node_reached : Bool → World → Evidence → Result World
node_reached reachable w e = do
  n ← or_fail (Map.get w.nodes e.target) unknown_node
  ok (put_node w e.target (record n { healthy = reachable }))

-- A measurement older than the one recorded is a reordered report.
unfoldable pub is_older : Option ProviderReach → Evidence → Bool
is_older none e = false
is_older (some r) e = not (is_zero_time r.observed_at) && before e.observed_at r.observed_at

unfoldable pub provider_reachable : World → Evidence → Result World
unfolding is_older
provider_reachable w e = do
  n ← or_fail (Map.get w.nodes (seen e "node")) unknown_node
  refuse (e.target == "") "evidence %q must name a provider"
  ok (
      if is_older (Map.get n.providers e.target) e
      then w
      else put_node w (seen e "node") (record n {
        providers = Map.put n.providers e.target (record {
          reachable = seen e "reachable" == "true";
          observed_at = e.observed_at;
          expires_at = e.expires_at;
          detail = seen e "detail";
        });
      }))

unfoldable pub route_reachable : World → Evidence → Result World
route_reachable w e = do
  refuse (e.target == "") "evidence %q must name a route host"
  ok (record w {
    routes = Map.put w.routes e.target (record {
      host = e.target;
      workload = seen e "workload";
      port = observed_int e "port";
      exposure = seen e "exposure";
    });
  })

unfoldable pub route_removed : World → Evidence → Result World
route_removed w e = ok (record w { routes = Map.delete w.routes e.target })

-- control/approval.go, the keys of `ApprovalScopes`.
unfoldable pub is_approval_scope : String → Bool
is_approval_scope s =
    s == "public-route"
    || s == "destroy-stateful"
    || s == "restore-volume"
    || s == "move-volume"
    || s == "agent-mutating-tools"
    || s == "rollback"

unfoldable pub approval_granted : World → Evidence → Result World
unfolding is_approval_scope
approval_granted w e = do
  refuse (e.target == "") "evidence %q must name an approval"
  refuse (seen e "goal" == "" || seen e "scope" == "") "evidence %q must name a goal and scope"
  require (is_approval_scope (seen e "scope")) "evidence %q names ungated scope %q"
  ok (record w {
    approvals = Map.put w.approvals e.target (record {
      id = e.target;
      goal_id = seen e "goal";
      scope = seen e "scope";
      issued_by = seen e "issued_by";
      granted = true;
      issued_at = e.observed_at;
      expires_at = e.expires_at;
      revision = to_uint64 (observed_int e "revision");
      subject = seen e "subject";
      rollback = seen e "rollback";
      reason = seen e "reason";
    });
  })

unfoldable pub approval_revoked : World → Evidence → Result World
approval_revoked w e = elim (Map.get w.approvals e.target) [
  | none ↦ ok w
  | some a ↦
      ok (record w { approvals = Map.put w.approvals e.target (record a { granted = false }) })
]

unfoldable pub queue_observed : World → Evidence → Result World
queue_observed w e = do
  refuse (e.target == "") "evidence %q must name a queue"
  q ← or_fail (Map.get w.queues e.target) "evidence %q names unknown queue %q"
  ok (record w {
    queues = Map.put w.queues e.target (record q {
      depth = observed_int e "depth";
      in_flight = observed_int e "in_flight";
      observed_at = e.observed_at;
    });
  })
