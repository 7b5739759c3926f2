-- ===== src/Projection/Effect/Nodes.antt =====
-- control/projection.go: the effects of the cases on nodes, routes, approvals and queues.
use a4s.Prelude.{
  refl, inl, inr, done, Ensures, Option-cases, Bool, require-Ensures, refuse-Ensures,
  or_fail-Ensures,
}
use a4s.Prelude.Map
use a4s.Types.World.{World}
use a4s.Types.Evidence.{Evidence}
use a4s.Projection.Nodes
use a4s.Projection.Effect.{Effect, elsewhere, keep_or}

module _ (w : World) (e : Evidence) where
  unchanged : Effect w w
  unchanged = elsewhere refl refl

  pub image_present-Effect : Ensures (Effect w) (Nodes.image_present w e)
  unfolding Nodes.image_present
  image_present-Effect =
      or_fail-Ensures _ _ _ λ n _. refuse-Ensures _ _ _ λ _. done (elsewhere refl refl)

  pub policy_applied-Effect : Ensures (Effect w) (Nodes.policy_applied w e)
  unfolding Nodes.policy_applied
  policy_applied-Effect = or_fail-Ensures _ _ _ λ n _. done (elsewhere refl refl)

  pub zone_published-Effect : Ensures (Effect w) (Nodes.zone_published w e)
  unfolding Nodes.zone_published
  zone_published-Effect = or_fail-Ensures _ _ _ λ n _. done (elsewhere refl refl)

  pub images_collected-Effect : Ensures (Effect w) (Nodes.images_collected w e)
  unfolding Nodes.images_collected
  images_collected-Effect = or_fail-Ensures _ _ _ λ n _. done (elsewhere refl refl)

  pub node_cordoned-Effect : Ensures (Effect w) (Nodes.node_cordoned w e)
  unfolding Nodes.node_cordoned
  node_cordoned-Effect = or_fail-Ensures _ _ _ λ n _. done (elsewhere refl refl)

  pub node_uncordoned-Effect : Ensures (Effect w) (Nodes.node_uncordoned w e)
  unfolding Nodes.node_uncordoned
  node_uncordoned-Effect = or_fail-Ensures _ _ _ λ n _. done (elsewhere refl refl)

  pub node_reached-Effect :
      (reachable : Bool) → Ensures (Effect w) (Nodes.node_reached reachable w e)
  unfolding Nodes.node_reached
  node_reached-Effect reachable = or_fail-Ensures _ _ _ λ n _. done (elsewhere refl refl)

  pub provider_reachable-Effect : Ensures (Effect w) (Nodes.provider_reachable w e)
  unfolding Nodes.provider_reachable
  provider_reachable-Effect = or_fail-Ensures _ _ _ λ n _. refuse-Ensures _ _ _ λ _.
      done
        (keep_or w (Nodes.is_older (Map.get n.providers e.target) e) _ (λ _. elsewhere refl refl))

  pub route_reachable-Effect : Ensures (Effect w) (Nodes.route_reachable w e)
  unfolding Nodes.route_reachable
  route_reachable-Effect = refuse-Ensures _ _ _ λ _. done (elsewhere refl refl)

  pub route_removed-Effect : Ensures (Effect w) (Nodes.route_removed w e)
  unfolding Nodes.route_removed
  route_removed-Effect = done (elsewhere refl refl)

  pub approval_granted-Effect : Ensures (Effect w) (Nodes.approval_granted w e)
  unfolding Nodes.approval_granted
  approval_granted-Effect =
      refuse-Ensures _ _ _
        λ _. refuse-Ensures _ _ _ λ _. require-Ensures _ _ _ λ _. done (elsewhere refl refl)

  pub approval_revoked-Effect : Ensures (Effect w) (Nodes.approval_revoked w e)
  unfolding Nodes.approval_revoked
  approval_revoked-Effect = elim (Option-cases (Map.get w.approvals e.target)) [
    | inl gone ↦ rw (gone, Nodes.approval_revoked) (done unchanged)
    | inr (a, held) ↦ rw (held, Nodes.approval_revoked) (done (elsewhere refl refl))
  ]

  pub queue_observed-Effect : Ensures (Effect w) (Nodes.queue_observed w e)
  unfolding Nodes.queue_observed
  queue_observed-Effect =
      refuse-Ensures _ _ _ λ _. or_fail-Ensures _ _ _ λ q _. done (elsewhere refl refl)
