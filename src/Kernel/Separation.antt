-- ===== src/Kernel/Separation.antt =====
-- control/policy.go: the capability sets of `DefaultPolicy`.
use a4s.Prelude.{
  ◌≡◌, refl, ◌∙◌, ap, Bool, true, false, not, ◌&&◌, ◌||◌, List, [], ◌∷◌, String, arith, ok,
  >>=-eq-ok, Ensures-ok, Option-cases, inl, inr,
}
use a4s.Prelude.Map
use a4s.Prelude.Map.{Map, all_values, get-all_values}
use mathlib.Core.List.{Memᴰ}
use mathlib.Core.List.Memᴰ
use mathlib.Core.List.Memᴰ.{head, tail}
use a4s.Types.Goal.{Goal}
use a4s.Types.World.{World, Time}
use a4s.Types.Action.{Action, ActionKind, Proposal, AgentDescriptor, kind_text}
use a4s.Kernel.Policy.{default_policy, grants_of, granted}
use a4s.Kernel.Provenance.{Signing}
use a4s.Kernel.Authorize.{authorize, run_plan, step_action}
use a4s.Kernel.Plans.{authorize-Authorized, step_action-Accepted}

-- The kinds that bring an allocation up.
unfoldable pub brings_up : ActionKind → Bool
brings_up ActionKind.create_allocation = true
brings_up ActionKind.start_allocation = true
brings_up _ = false

-- The kinds that take an allocation or its data away.
unfoldable pub takes_down : ActionKind → Bool
takes_down ActionKind.stop_allocation = true
takes_down ActionKind.delete_allocation = true
takes_down ActionKind.drain_allocation = true
takes_down ActionKind.detach_volume = true
takes_down ActionKind.restore_snapshot = true
takes_down ActionKind.prune_snapshots = true
takes_down _ = false

any_up : Map Bool → Bool
unfolding granted kind_text
any_up g = granted g ActionKind.create_allocation || granted g ActionKind.start_allocation

any_down : Map Bool → Bool
unfolding granted kind_text
any_down g =
    granted g ActionKind.stop_allocation
    || granted g ActionKind.delete_allocation
    || granted g ActionKind.drain_allocation
    || granted g ActionKind.detach_volume
    || granted g ActionKind.restore_snapshot
    || granted g ActionKind.prune_snapshots

any_up-granted :
    (g : Map Bool) (k : ActionKind) → brings_up k ≡ true → granted g k ≡ true → any_up g ≡ true
unfolding any_up brings_up
any_up-granted g ActionKind.create_allocation b h = ground (arith, h)
any_up-granted g ActionKind.start_allocation b h = ground (arith, h)
any_up-granted g _ b h = cc

any_down-granted :
    (g : Map Bool) (k : ActionKind) → takes_down k ≡ true → granted g k ≡ true → any_down g ≡ true
unfolding any_down takes_down
any_down-granted g ActionKind.stop_allocation b h = ground (arith, h)
any_down-granted g ActionKind.delete_allocation b h = ground (arith, h)
any_down-granted g ActionKind.drain_allocation b h = ground (arith, h)
any_down-granted g ActionKind.detach_volume b h = ground (arith, h)
any_down-granted g ActionKind.restore_snapshot b h = ground (arith, h)
any_down-granted g ActionKind.prune_snapshots b h = ground (arith, h)
any_down-granted g _ b h = cc

apart : Map Bool → Bool
unfolding any_up any_down
apart g = not (any_up g && any_down g)

default_policy-apart : all_values apart default_policy.grants ≡ true
unfolding apart default_policy all_values Map.get
default_policy-apart = refl

empty-apart : apart Map.empty ≡ true
unfolding apart Map.empty Map.get
empty-apart = refl

grants-apart : (agent : String) → apart (grants_of default_policy agent) ≡ true
unfolding grants_of
grants-apart agent = elim (Option-cases (Map.get default_policy.grants agent)) [
  | inl gone ↦ rw (gone, grants_of) empty-apart
  | inr (g, held) ↦
      rw (held, grants_of)
        (get-all_values apart default_policy.grants agent g default_policy-apart held)
]

run_plan-granted :
    (as' : List Action) (clock : Time) (g : Goal) (grants : Map Bool) (completed : List String)
    (w final : World) (a : Action)
    → run_plan clock g grants completed w as' ≡ ok final
    → Memᴰ a as'
    → granted grants a.kind ≡ true
unfolding run_plan
run_plan-granted [] clock g grants completed w final a h m = absurd (Memᴰ.not-nil m)
run_plan-granted (x ∷ as') clock g grants completed w final a h (head e) =
    let (u, step, _) = >>=-eq-ok (step_action clock g grants completed w x) _ h in
    let acc = Ensures-ok (step_action-Accepted clock g grants completed w x) step in
    ap (λ y. granted grants y.kind) e ∙ acc.granted'
run_plan-granted (x ∷ as') clock g grants completed w final a h (tail m) =
    let (u, _, rest) = >>=-eq-ok (step_action clock g grants completed w x) _ h in
    run_plan-granted as' clock g grants (x.id ∷ completed) u final a rest m

-- Under the default policy no proposal is authorized that both creates or starts an allocation
-- and stops, drains or deletes one, takes a volume away, restores a volume or prunes snapshots.
pub authorize-separates :
    (clock : Time) (lib : Signing) (actor : AgentDescriptor) (g : Goal) (w : World)
    (proposal : Proposal) (a b : Action)
    → authorize clock lib default_policy actor g w proposal ≡ ok tt
    → Memᴰ a proposal.actions
    → Memᴰ b proposal.actions
    → brings_up a.kind ≡ true
    → takes_down b.kind ≡ false
unfolding apart
authorize-separates clock lib actor g w proposal a b h ma mb up =
    let all = authorize-Authorized clock lib default_policy actor g w proposal h in
    let grants = grants_of default_policy proposal.agent_id in
    let ga = run_plan-granted proposal.actions clock g grants [] w all.final a all.plan ma in
    let gb = run_plan-granted proposal.actions clock g grants [] w all.final b all.plan mb in
    ground (
      arith,
      any_up-granted grants a.kind up ga,
      any_down-granted grants b.kind,
      gb,
      grants-apart proposal.agent_id,
    )
