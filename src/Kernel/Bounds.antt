-- ===== src/Kernel/Bounds.antt =====
-- control/disruption.go and control/clusterbudget.go: the bounds on an authorized proposal.
use a4s.Prelude.{
  le_of_lt, ℕ, suc, ◌+◌, ◌<◌, ◌≤◌, ◌≡◌, refl, sym, ltb, ◌∙◌, ap, true, false, not, List, [], ◌∷◌,
  String, ◌==◌, eq_iff, pos, le_ℤ, lt_ℤ, ok, arith, if◌then◌else◌, >>=-eq-ok, refuse-eq-ok,
  require-eq-ok, require, refuse, eqb, leb, inl, inr, Bool-cases, ◌>>=◌,
}
use mathlib.Core.List.{Memᴰ}
use mathlib.Core.List.Memᴰ
use mathlib.Core.List.Memᴰ.{head, tail}
use a4s.Types.Goal.{Goal}
use a4s.Types.World.{World, Allocation, Disruption, Time, now, phase_is, stopped}
use a4s.Types.Action.{Action, ActionKind, Proposal, AgentDescriptor}
use a4s.Disruption.{later_than}
use a4s.Kernel.Policy.{Policy}
use a4s.Kernel.Provenance.{Signing}
use a4s.Prelude.Map.{count, count_values}
use a4s.Kernel.Rules.{mem}
use a4s.Kernel.Governor.{
  check_window, check_cooldown, check_disruption_budget, check_cluster_budget, recent_disruptions,
  disruptive_actions, is_disruptive, action_domain, proposed_domains, all_only, only_domain,
  ledger_domains, window_of, size, commitment, commitment_from, adding_from, creates_allocation,
  exceeds, no_commitment, commit, ClusterCommitment,
}
use a4s.Kernel.Authorize.{authorize}
use a4s.Kernel.Plans.{authorize-Authorized}

-- How many allocations a plan creates.
unfoldable pub created : List Action → ℕ
created [] = 0
created (a ∷ as') = let rest = created as' in if creates_allocation a.kind then suc rest else rest

-- How many allocations of a world are not stopped.
unfoldable pub live : World → ℕ
unfolding count
live w = count (λ a. not (phase_is a.phase stopped)) w.allocations

-- How many actions of a plan stop, delete or drain an allocation.
abbrev pub takes_down : ActionKind → ℕ
takes_down ActionKind.stop_allocation = 1
takes_down ActionKind.delete_allocation = 1
takes_down ActionKind.drain_allocation = 1
takes_down _ = 0

abbrev pub taken_down : List Action → ℕ
taken_down [] = 0
taken_down (a ∷ as') = takes_down a.kind + taken_down as'

-- How many disruptions of a ledger are less than a span old.
abbrev pub younger_than : ℕ → Time → List Disruption → ℕ
younger_than span t [] = 0
younger_than span t (d ∷ ds) =
    let rest = younger_than span t ds in if ltb t (d.at + span) then suc rest else rest

is_disruptive-counts : (k : ActionKind) → (if is_disruptive k then 1 else 0) ≡ takes_down k
unfolding is_disruptive
is_disruptive-counts k = elim k as (λ x. (if is_disruptive x then 1 else 0) ≡ takes_down x) [
  | ActionKind.stop_allocation ↦ refl
  | _ ↦ refl
]

disruptive-size : (as' : List Action) → size (disruptive_actions as') ≡ taken_down as'
unfolding disruptive_actions
disruptive-size [] = refl
disruptive-size (a ∷ as') = ground (arith, is_disruptive-counts a.kind, disruptive-size as')

later_than-size :
    (ds : List Disruption) (span : ℕ) (t : Time)
    → size (later_than t span ds) ≡ younger_than span t ds
unfolding later_than
later_than-size [] span t = refl
later_than-size (d ∷ ds) span t = ground (arith, later_than-size ds span t)

module _ (clock : Time) (lib : Signing) (p : Policy) (actor : AgentDescriptor) (g : Goal)
    (w : World) (proposal : Proposal) where
  authorize-sizes :
      authorize clock lib p actor g w proposal ≡ ok tt
      → lt_ℤ (pos 0) p.max_disruptions_per_window ≡ true
      → 0 < size (disruptive_actions proposal.actions)
      → le_ℤ
          (pos (
            size (recent_disruptions w (now clock w) (window_of p.disruption_window))
            + size (disruptive_actions proposal.actions)))
          p.max_disruptions_per_window
        ≡ true
  unfolding check_disruption_budget check_window ◌>>=◌
  authorize-sizes h on some' =
      ground (arith, (authorize-Authorized clock lib p actor g w proposal h).disruption)

  -- Under a policy with a window and a budget for it, a proposal that stops, deletes or drains
  -- anything is authorized only if these actions, with the disruptions in the world's ledger that
  -- are younger than the window, are at most the budget.
  pub authorize-window :
      (span budget : ℕ)
      → authorize clock lib p actor g w proposal ≡ ok tt
      → p.disruption_window ≡ pos (suc span)
      → p.max_disruptions_per_window ≡ pos (suc budget)
      → 0 < taken_down proposal.actions
      → younger_than (suc span) (now clock w) w.disruptions + taken_down proposal.actions
        ≤ suc budget
  unfolding recent_disruptions
  authorize-window span budget h window limit some' =
      let size_is = disruptive-size proposal.actions in
      let wide : window_of p.disruption_window ≡ pos (suc span) =
        rw (window, le_of_lt (pos (suc span)) (ground arith)) refl in
      let sizes = authorize-sizes h (rw limit (ground arith)) (rw size_is some') in
      let old = later_than-size w.disruptions (suc span) (now clock w) in
      ground (arith, rw (wide, limit, size_is, old) at sizes)

proposed_domains-mem :
    (as' : List Action) (w : World) (a : Action)
    → Memᴰ a as'
    → (action_domain w a == "") ≡ false
    → mem (action_domain w a) (proposed_domains w as') ≡ true
unfolding proposed_domains
proposed_domains-mem [] w a m d = absurd (Memᴰ.not-nil m)
proposed_domains-mem (x ∷ as') w a (head e) d =
    ground (arith, eq_iff (action_domain w x) (action_domain w a), ap (action_domain w) e)
proposed_domains-mem (x ∷ as') w a (tail m) d = ground (arith, proposed_domains-mem as' w a m d)

disruptive_actions-mem :
    (as' : List Action) (a : Action)
    → Memᴰ a as'
    → is_disruptive a.kind ≡ true
    → Memᴰ a (disruptive_actions as')
unfolding disruptive_actions
disruptive_actions-mem [] a m k = absurd (Memᴰ.not-nil m)
disruptive_actions-mem (x ∷ as') a (head e) k =
    rw (sym (ap (λ y. is_disruptive y.kind) e) ∙ k) (head e)
disruptive_actions-mem (x ∷ as') a (tail m) k = elim (Bool-cases (is_disruptive x.kind)) [
  | inl yes' ↦ rw yes' (tail (disruptive_actions-mem as' a m k))
  | inr no' ↦ rw no' (disruptive_actions-mem as' a m k)
]

only_one :
    (ds : List String) (c d : String)
    → leb (size ds) 1 ≡ true
    → mem c ds ≡ true
    → mem d ds ≡ true
    → c ≡ d
only_one [] c d h hc hd = cc
only_one (x ∷ []) c d h hc hd = ground (arith, eq_iff x c, eq_iff x d)
only_one (x ∷ y ∷ ds) c d h hc hd = ground arith

only_domain-mem :
    (busy : List String) (c d : String) → only_domain c busy ≡ true → mem d busy ≡ true → c ≡ d
unfolding only_domain
only_domain-mem [] c d h m = cc
only_domain-mem (x ∷ busy) c d h m =
    ground (arith, eq_iff x d, eq_iff x c, only_domain-mem busy c d)

all_only-mem :
    (ds busy : List String) (c d : String)
    → all_only ds busy ≡ true
    → mem c ds ≡ true
    → mem d busy ≡ true
    → c ≡ d
unfolding all_only
all_only-mem [] busy c d h hc hd = cc
all_only-mem (x ∷ ds) busy c d h hc hd =
    ground (arith, eq_iff x c, only_domain-mem busy x d, all_only-mem ds busy c d)

size-Memᴰ : (as' : List Action) {a : Action} → Memᴰ a as' → eqb (size as') 0 ≡ false
size-Memᴰ [] m = absurd (Memᴰ.not-nil m)
size-Memᴰ (x ∷ as') m = ground arith

check_cooldown-holds :
    (p : Policy) (w : World) (t : Time) (ds : List Action) {u : Unit {0}}
    → lt_ℤ (pos 0) p.disruption_cooldown ≡ true
    → check_cooldown p w t ds ≡ ok u
    → (leb (size (proposed_domains w ds)) 1 ≡ true)
      × (all_only
            (proposed_domains w ds)
            (ledger_domains (recent_disruptions w t p.disruption_cooldown))
          ≡ true)
unfolding check_cooldown
check_cooldown-holds p w t ds on h =
    let (_, one, rest) =
      >>=-eq-ok (require (leb (size (proposed_domains w ds)) 1) _) _
        (rw (le_of_lt p.disruption_cooldown on) at h) in
    (require-eq-ok _ _ one, require-eq-ok _ _ rest)

cooldown_holds :
    (clock : Time) (p : Policy) (w : World) (proposal : Proposal) {a : Action}
    → lt_ℤ (pos 0) p.disruption_cooldown ≡ true
    → check_disruption_budget clock p w proposal ≡ ok tt
    → Memᴰ a (disruptive_actions proposal.actions)
    → (leb (size (proposed_domains w (disruptive_actions proposal.actions))) 1 ≡ true)
      × (all_only
            (proposed_domains w (disruptive_actions proposal.actions))
            (ledger_domains (recent_disruptions w (now clock w) p.disruption_cooldown))
          ≡ true)
unfolding check_disruption_budget check_cooldown ◌>>=◌
cooldown_holds clock p w proposal on h m =
    let ds = disruptive_actions proposal.actions in
    let (x, _, cool) = >>=-eq-ok (check_window p w (now clock w) ds) _ (rw (size-Memᴰ ds m) at h) in
    check_cooldown-holds p w (now clock w) ds on cool

adding_from-allocations :
    (as' : List Action) (t : ClusterCommitment)
    → (adding_from t as').allocations ≡ t.allocations + created as'
unfolding adding_from created
adding_from-allocations [] t = ground arith
adding_from-allocations (a ∷ as') t =
    adding_from-allocations as'
      (if creates_allocation a.kind then commit t a.resources a.budget else t)
    ∙ ground arith

commitment_from-allocations :
    (m : List (String × Allocation)) (t : ClusterCommitment)
    → (commitment_from t m).allocations
      ≡ t.allocations + count_values (λ a. not (phase_is a.phase stopped)) m
unfolding commitment_from count_values
commitment_from-allocations [] t = ground arith
commitment_from-allocations ((_, a) ∷ m) t =
    commitment_from-allocations m
      (if phase_is a.phase stopped then t else commit t a.resources a.budget)
    ∙ ground arith

module _ (clock : Time) (lib : Signing) (p : Policy) (actor : AgentDescriptor) (g : Goal)
    (w : World) (proposal : Proposal) where
  -- While a cooldown is set, the disruptive actions of an authorized proposal that have a failure
  -- domain are all in one domain.
  pub authorize-one_domain :
      authorize clock lib p actor g w proposal ≡ ok tt
      → lt_ℤ (pos 0) p.disruption_cooldown ≡ true
      → (a b : Action) → Memᴰ a proposal.actions
      → Memᴰ b proposal.actions
      → is_disruptive a.kind ≡ true
      → is_disruptive b.kind ≡ true
      → (action_domain w a == "") ≡ false
      → (action_domain w b == "") ≡ false
      → action_domain w a ≡ action_domain w b
  authorize-one_domain h on a b ma mb ka kb da db =
      let d = disruptive_actions-mem proposal.actions a ma ka in
      let both =
        cooldown_holds clock p w proposal on
          (authorize-Authorized clock lib p actor g w proposal h).disruption d in
      only_one (proposed_domains w (disruptive_actions proposal.actions)) _ _ both.0
        (proposed_domains-mem _ w a d da)
        (proposed_domains-mem _ w b (disruptive_actions-mem proposal.actions b mb kb) db)

  -- While a cooldown is set, an authorized proposal disrupts a failure domain only if every
  -- disruption within the cooldown that names a domain was in that same domain.
  pub authorize-cooldown :
      authorize clock lib p actor g w proposal ≡ ok tt
      → lt_ℤ (pos 0) p.disruption_cooldown ≡ true
      → (a : Action) (domain : String) → Memᴰ a proposal.actions
      → is_disruptive a.kind ≡ true
      → (action_domain w a == "") ≡ false
      → mem domain (ledger_domains (recent_disruptions w (now clock w) p.disruption_cooldown))
        ≡ true
      → action_domain w a ≡ domain
  authorize-cooldown h on a domain ma ka da busy =
      let d = disruptive_actions-mem proposal.actions a ma ka in
      let both =
        cooldown_holds clock p w proposal on
          (authorize-Authorized clock lib p actor g w proposal h).disruption d in
      all_only-mem (proposed_domains w (disruptive_actions proposal.actions)) _ _ domain both.1
        (proposed_domains-mem _ w a d da) busy

  -- Where the policy sets a ceiling, the allocations of the observed world that are not stopped
  -- and those that an authorized proposal creates are together at most the ceiling.
  pub authorize-max_allocations :
      authorize clock lib p actor g w proposal ≡ ok tt
      → lt_ℤ (pos 0) p.max_allocations ≡ true
      → 0 < created proposal.actions
      → le_ℤ (pos (live w + created proposal.actions)) p.max_allocations ≡ true
  unfolding check_cluster_budget live commitment count exceeds
  authorize-max_allocations h on some' =
      let c = (authorize-Authorized clock lib p actor g w proposal h).cluster in
      let x = adding_from-allocations proposal.actions no_commitment in
      let y = commitment_from-allocations w.allocations.entries no_commitment in
      let more : eqb (adding_from no_commitment proposal.actions).allocations 0 ≡ false =
        ground (arith, x) in
      let (_, under, _) =
        >>=-eq-ok
          (refuse
            (exceeds
              (pos (
                (commitment w).allocations
                + (adding_from no_commitment proposal.actions).allocations))
              p.max_allocations)
            _)
          _ (rw more at c) in
      let max = refuse-eq-ok _ _ under in ground (arith, x, y)
