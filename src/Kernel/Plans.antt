-- ===== src/Kernel/Plans.antt =====
-- control/policy.go, `Kernel.Authorize`: what an authorized proposal is known to satisfy.
use a4s.Prelude.{
  unit, ◌≡◌, refl, sym, ◌∙◌, ap, subst, Bool, true, false, not, ◌||◌, List, [], ◌∷◌, ◌++◌, String,
  ◌==◌, eq_iff, pos, lt_ℤ, ok, Ensures, Ensures-ok, require-Ensures, refuse-Ensures, bind-Ensures,
  result-Ensures, arith, >>=-eq-ok, ok-injective, eqb,
}
use a4s.Prelude.Map.{Map}
use a4s.Types.Goal.{Goal}
use a4s.Types.World.{World, Time, now}
use a4s.Types.Action.{Action, Proposal, AgentDescriptor}
use a4s.Projection.Fencing.{Fenced, Effect-Fenced}
use a4s.Projection.Replay.{Bounded, Effect-Bounded, Bounded-Unsaturated}
use a4s.Projection.Guarantees.{ReadyRuns, Effect-ReadyRuns}
use a4s.Kernel.Policy.{Policy, grants_of, granted}
use a4s.Kernel.Rules.{mem, is_empty}
use a4s.Kernel.Simulate.{simulate_kind}
use a4s.Kernel.Governor.{check_disruption_budget, check_backoff, check_cluster_budget, size}
use a4s.Kernel.Provenance.{Signing, check_image_provenance}
use a4s.Kernel.Authorize.{
  validate_kind, step_action, run_plan, require_evidence_checks, authorize, all_completed,
}
use a4s.Kernel.Refines.{simulate-Effect}

-- What the guards of one action of a plan establish.
pub record Accepted (clock : Time) (g : Goal) (grants : Map Bool) (completed : List String)
    (w u : World) (a : Action) : Type 0 where
  pub new : (a.id == "" || mem a.id completed) ≡ false
  pub granted' : granted grants a.kind ≡ true
  pub ordered : all_completed a.depends_on completed ≡ true
  pub valid : validate_kind clock a.kind g w a ≡ ok tt
  pub simulated : simulate_kind a.kind w a ≡ ok u

pub step_action-Accepted :
    (clock : Time) (g : Goal) (grants : Map Bool) (completed : List String) (w : World) (a : Action)
    → Ensures
        (λ u. Accepted clock g grants completed w u a)
        (step_action clock g grants completed w a)
unfolding step_action
step_action-Accepted clock g grants completed w a = refuse-Ensures _ _ _ λ new.
    require-Ensures _ _ _ λ may. require-Ensures _ _ _ λ after. bind-Ensures _ _ λ x valid.
      result-Ensures _ λ u sim. record {
        new = new;
        granted' = may;
        ordered = after;
        valid = valid ∙ ap ok (unit x);
        simulated = sim;
      }

-- What the guards of a whole proposal establish.
pub record Authorized (clock : Time) (lib : Signing) (p : Policy) (actor : AgentDescriptor)
    (g : Goal) (w : World) (proposal : Proposal) : Type 0 where
  pub actor_matches : (proposal.agent_id == actor.id) ≡ true
  pub goal_matches : (proposal.agent_id == "" || not (proposal.goal_id == g.id)) ≡ false
  pub current : eqb proposal.based_on_revision w.revision ≡ true
  pub some_actions : is_empty proposal.actions ≡ false
  pub few_actions : lt_ℤ p.max_actions_per_proposal (pos (size proposal.actions)) ≡ false
  pub final : World
  pub plan : run_plan clock g (grants_of p proposal.agent_id) [] w proposal.actions ≡ ok final
  pub evidence : require_evidence_checks g proposal.expected_evidence proposal.actions ≡ ok tt
  pub disruption : check_disruption_budget clock p w proposal ≡ ok tt
  pub backoff : check_backoff w (now clock w) proposal.actions ≡ ok tt
  pub provenance : check_image_provenance lib p g (now clock w) proposal.actions ≡ ok tt
  pub cluster : check_cluster_budget p w proposal ≡ ok tt

authorize-Ensures :
    (clock : Time) (lib : Signing) (p : Policy) (actor : AgentDescriptor) (g : Goal) (w : World)
    (proposal : Proposal)
    → Ensures
        (λ _. Authorized clock lib p actor g w proposal)
        (authorize clock lib p actor g w proposal)
unfolding authorize
authorize-Ensures clock lib p actor g w proposal = require-Ensures _ _ _ λ actor'.
    refuse-Ensures _ _ _ λ goal'. require-Ensures _ _ _ λ current. refuse-Ensures _ _ _ λ some'.
      refuse-Ensures _ _ _ λ few. refuse-Ensures _ _ _ λ _. bind-Ensures _ _ λ final plan.
        bind-Ensures _ _ λ e evidence. bind-Ensures _ _ λ d disruption.
          bind-Ensures _ _ λ b backoff. bind-Ensures _ _ λ s provenance.
            result-Ensures _ λ c cluster. record {
              actor_matches = actor';
              goal_matches = goal';
              current = current;
              some_actions = some';
              few_actions = few;
              final = final;
              plan = plan;
              evidence = evidence ∙ ap ok (unit e);
              disruption = disruption ∙ ap ok (unit d);
              backoff = backoff ∙ ap ok (unit b);
              provenance = provenance ∙ ap ok (unit s);
              cluster = cluster ∙ ap ok (unit c);
            }

pub authorize-Authorized :
    (clock : Time) (lib : Signing) (p : Policy) (actor : AgentDescriptor) (g : Goal) (w : World)
    (proposal : Proposal)
    → authorize clock lib p actor g w proposal ≡ ok tt
    → Authorized clock lib p actor g w proposal
authorize-Authorized clock lib p actor g w proposal h =
    Ensures-ok (authorize-Ensures clock lib p actor g w proposal) h

abbrev pub ids : List Action → List String
ids [] = []
ids (a ∷ as') = a.id ∷ ids as'

-- A plan that runs takes its steps in the order of the proposal.
run_plan-split :
    (xs ys : List Action) (a : Action) (clock : Time) (g : Goal) (grants : Map Bool)
    (completed : List String) (w final : World)
    → run_plan clock g grants completed w (xs ++ a ∷ ys) ≡ ok final
    → (done' : List String) × (v : World) × (u : World) × ((s : String)
        → mem s done' ≡ (mem s (ids xs) || mem s completed))
      × Accepted clock g grants done' v u a
unfolding run_plan
run_plan-split [] ys a clock g grants completed w final h =
    let (u, step, _) = >>=-eq-ok (step_action clock g grants completed w a) _ h in
    (
      completed,
      w,
      u,
      (λ s. refl),
      Ensures-ok (step_action-Accepted clock g grants completed w a) step,
    )
run_plan-split (x ∷ xs) ys a clock g grants completed w final h =
    let (u, step, rest) = >>=-eq-ok (step_action clock g grants completed w x) _ h in
    let (d, v, t, same, acc) =
      run_plan-split xs ys a clock g grants (x.id ∷ completed) u final rest in
    (
      d,
      v,
      t,
      (λ s. same s ∙ (elim (x.id == s) [ true ↦ ground arith | false ↦ ground arith ])),
      acc,
    )

all_completed-mem :
    (ds completed : List String) (d : String)
    → all_completed ds completed ≡ true
    → mem d ds ≡ true
    → mem d completed ≡ true
all_completed-mem [] completed d h m = cc
all_completed-mem (x ∷ ds) completed d h m =
    ground (arith, eq_iff x d, all_completed-mem ds completed d)

or_false : (b : Bool) → (b || false) ≡ b
or_false true = refl
or_false false = refl

-- A plan that is authorized is in order: the id of every action is not empty and is not the id
-- of an earlier one, every action that it depends on stands before it, and its kind is granted
-- to the agent that proposes.
pub authorize-ordered :
    (clock : Time) (lib : Signing) (p : Policy) (actor : AgentDescriptor) (g : Goal) (w : World)
    (proposal : Proposal)
    → authorize clock lib p actor g w proposal ≡ ok tt
    → (xs ys : List Action) (a : Action) → proposal.actions ≡ xs ++ a ∷ ys
    → ((a.id == "" || mem a.id (ids xs)) ≡ false)
      × ((d : String) → mem d a.depends_on ≡ true → mem d (ids xs) ≡ true)
      × (granted (grants_of p proposal.agent_id) a.kind ≡ true)
authorize-ordered clock lib p actor g w proposal h xs ys a e =
    let all = authorize-Authorized clock lib p actor g w proposal h in
    let plan =
      subst (λ as'. run_plan clock g (grants_of p proposal.agent_id) [] w as' ≡ ok all.final) e
        all.plan in
    let (d, v, u, same, acc) = run_plan-split xs ys a clock g _ [] w all.final plan in
    let same' : (s : String) → mem s d ≡ mem s (ids xs) = λ s. same s ∙ or_false (mem s (ids xs)) in
    (
      ap (λ b. a.id == "" || b) (sym (same' a.id)) ∙ acc.new,
      (λ s m. sym (same' s) ∙ all_completed-mem a.depends_on d s acc.ordered m),
      acc.granted',
    )

-- A plan keeps the rules that evidence keeps.
run_plan-keeps :
    (as' : List Action) (clock : Time) (g : Goal) (grants : Map Bool) (completed : List String)
    (w final : World)
    → Bounded (size as') w
    → Fenced w
    → ReadyRuns w
    → run_plan clock g grants completed w as' ≡ ok final
    → Fenced final × ReadyRuns final
unfolding run_plan
run_plan-keeps [] clock g grants completed w final b f r h =
    (subst Fenced (ok-injective h) f, subst ReadyRuns (ok-injective h) r)
run_plan-keeps (a ∷ as') clock g grants completed w final b f r h =
    let (u, step, rest) = >>=-eq-ok (step_action clock g grants completed w a) _ h in
    let acc = Ensures-ok (step_action-Accepted clock g grants completed w a) step in
    let x = simulate-Effect clock g w u a acc.valid acc.simulated in
    run_plan-keeps as' clock g grants (a.id ∷ completed) u final (Effect-Bounded (size as') b x)
      (Effect-Fenced (Bounded-Unsaturated (size as') b) f x) (Effect-ReadyRuns r x) rest

-- A proposal is authorized only if its whole plan runs on a copy of the world, and the world at
-- the end of the plan keeps the single-writer rule, and has only running allocations ready, if
-- the observed world does and no generation in it is within the length of the plan of 2^64.
pub authorize-keeps :
    (clock : Time) (lib : Signing) (p : Policy) (actor : AgentDescriptor) (g : Goal) (w : World)
    (proposal : Proposal)
    → authorize clock lib p actor g w proposal ≡ ok tt
    → Bounded (size proposal.actions) w
    → Fenced w
    → ReadyRuns w
    → (final : World) × (run_plan clock g (grants_of p proposal.agent_id) [] w proposal.actions
        ≡ ok final)
      × Fenced final
      × ReadyRuns final
authorize-keeps clock lib p actor g w proposal h b f r =
    let all = authorize-Authorized clock lib p actor g w proposal h in
    let kept = run_plan-keeps proposal.actions clock g _ [] w all.final b f r all.plan in
    (all.final, all.plan, kept.0, kept.1)
