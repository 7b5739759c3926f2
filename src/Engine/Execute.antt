-- ===== src/Engine/Execute.antt =====
-- control/engine.go: `executeProposal`, `observe` and `verifyChecks`.
use a4s.Prelude.{
  Bool, ◌&&◌, not, Option, none, some, List, [], ◌∷◌, String, ◌==◌, if◌then◌else◌, is_some, Result,
  ok, err, refuse,
}
use a4s.Prelude.Map
use a4s.Types.Goal.{Goal}
use a4s.Types.World.{World, Allocation, Time, now, ready_at, drained, exhausted, is_zero_time}
use a4s.Types.Action.{Action, Proposal, Check, kind_text}
use a4s.Types.Evidence.{Evidence}
use a4s.Lease
use a4s.Eventlog.{Event}
use a4s.Engine.{
  Engine, Wiring, Prober, Run, return, then_fail, ◌>>=◌, ◌>>◌, note, record_event, observed_world,
  project_evidence, register_probe_target,
}

-- An event about an action of a proposal.
abbrev pub action_event :
    (type_name actor : String) → Goal → Proposal → Action → String → Option Evidence → Event
action_event type_name actor g p a message evidence =
    note type_name actor g.id p.id a.id a.target (kind_text a.kind) message evidence

abbrev pub action_note :
    (type_name actor : String)
    → Goal
    → Proposal
    → Action
    → String
    → Option Evidence
    → Wiring
    → Run (Unit {0})
action_note type_name actor g p a message evidence x =
    record_event x (action_event type_name actor g p a message evidence)

-- What an executor reports, with the time of the engine if it has none.
abbrev pub dated : Wiring → Evidence → Evidence
dated x evidence =
    if is_zero_time evidence.observed_at
    then record evidence { observed_at = x.clock }
    else evidence

-- The world that a projection gave, or the event and the error that its failure leaves.
abbrev pub or_blocked :
    Wiring
    → Goal
    → Proposal
    → Action
    → Engine
    → Engine × Result (Unit {0})
    → Engine × Result (Unit {0})
or_blocked x g p a e q = elim q.1 [
  | ok _ ↦ (q.0, ok tt)
  | err m ↦
      then_fail (action_note "goal.blocked" "projection" g p a m none x)
        "project evidence for action %q: %w" e
]

unfoldable pub advance_world : Wiring → Goal → Proposal → Action → Evidence → Run (Unit {0})
unfolding record_event project_evidence ◌>>=◌
advance_world x g p a evidence e = or_blocked x g p a e (project_evidence evidence e)

-- What follows the event of a dispatch, with the answer of the executor.
abbrev pub carried : Wiring → Goal → Proposal → Action → Result Evidence → Run (Unit {0})
carried x g p a (err m) = then_fail (action_note "goal.blocked" "node-executor" g p a m none x) m
carried x g p a (ok evidence) = λ e.
    (advance_world x g p a (dated x evidence)
        >> action_note "action.completed" "node-executor" g p a (kind_text a.kind)
            (some (dated x evidence)) x)
      (register_probe_target g a e)

-- One turn of the loop of `executeProposal`.
unfoldable pub run_action : Wiring → Goal → Proposal → Action → Run (Unit {0})
unfolding record_event advance_world register_probe_target ◌>>=◌ kind_text
run_action x g p a =
    action_note "action.dispatched" "coordinator" g p a (kind_text a.kind) none x
    >> carried x g p a (x.execute a)

unfoldable pub run_actions : Wiring → Goal → Proposal → List Action → Run (Unit {0})
unfolding run_action ◌>>=◌
run_actions x g p [] = return tt
run_actions x g p (a ∷ actions) = run_action x g p a >> run_actions x g p actions

abbrev pub observation : Wiring → Goal → Proposal → Check → Evidence → Event
observation x g p check evidence =
    note "observation.recorded" "prober" g.id p.id "" check.target (x.kind_name evidence.kind)
      (x.kind_name evidence.kind) (some evidence)

-- One turn of the inner loop of `observe`.
unfoldable pub probe_once : Wiring → Goal → Proposal → Check → Prober → Run (Unit {0})
unfolding record_event project_evidence observed_world ◌>>=◌
probe_once x g p check prober e = elim (prober e.probe_targets (observed_world x e) check) [
  | none ↦ (e, ok tt)
  | some evidence ↦
      (project_evidence evidence >> record_event x (observation x g p check evidence)) e
]

unfoldable pub probe_all : Wiring → Goal → Proposal → Check → List Prober → Run (Unit {0})
unfolding probe_once ◌>>=◌
probe_all x g p check [] = return tt
probe_all x g p check (prober ∷ probers) =
    probe_once x g p check prober >> probe_all x g p check probers

unfoldable pub observe : Wiring → Goal → Proposal → List Check → Run (Unit {0})
unfolding probe_all ◌>>=◌
observe x g p [] = return tt
observe x g p (check ∷ checks) = probe_all x g p check x.probers >> observe x g p checks

-- What holds of an allocation that may be absent, as text.
abbrev pub told : (Allocation → Bool) → Option Allocation → String
told test none = "false"
told test (some a) = if test a then "true" else "false"

-- `verifyChecks`, with the wall clock for a world that was never observed.
unfoldable pub check_met : Time → World → Check → Result (Unit {0})
unfolding ready_at drained exhausted refuse now
check_met clock w check =
    let allocation = Map.get w.allocations check.target in
    let t = now clock w in
    let met : String → Result (Unit {0}) =
      λ observed. refuse (not (observed == check.want)) "check %s for %s: observed %t, want %s" in
    if check.kind == "allocation_ready"
    then met (told (λ a. ready_at a t) allocation)
    else if check.kind == "agent_ready"
    then met (told (λ a. ready_at a t && not a.draining && not (exhausted a)) allocation)
    else if check.kind == "allocation_drained"
    then met (told drained allocation)
    else if check.kind == "route_reachable"
    then met (if is_some (Map.get w.routes check.target) then "true" else "false")
    else err "unknown evidence check %q"

unfoldable pub verify_checks : Time → World → List Check → Result (Unit {0})
unfolding check_met
verify_checks clock w [] = ok tt
verify_checks clock w (check ∷ checks) = elim (check_met clock w check) [
  | err m ↦ err m
  | ok _ ↦ verify_checks clock w checks
]

abbrev pub verdict : Goal → Proposal → String → Event
verdict g p message = note "goal.blocked" "verifier" g.id p.id "" "" "" message none

unfoldable pub verify : Wiring → Goal → Proposal → Run (Unit {0})
unfolding verify_checks record_event observed_world ◌>>=◌
verify x g p e = elim (verify_checks x.clock (observed_world x e) p.expected_evidence) [
  | ok _ ↦ (e, ok tt)
  | err m ↦ then_fail (record_event x (verdict g p m)) m e
]

-- `executeProposal`: the lease is released however it ends. Whether anything was changed is left out.
unfoldable pub execute_proposal : Wiring → Goal → Proposal → (lease_id : String) → Run (Unit {0})
unfolding run_actions observe verify ◌>>=◌ Lease.release
execute_proposal x g p lease_id e =
    let (f, answer) =
      (run_actions x g p p.actions >> observe x g p p.expected_evidence >> verify x g p) e in
    (record f { leases = Lease.release f.leases lease_id }, answer)
