-- ===== src/Engine/Rebuild.antt =====
-- control/engine.go and control/projection.go: the world of the engine against the events that it
-- recorded.
use a4s.Prelude.{
  ◌≡◌, refl, sym, ◌∙◌, ap, subst, not, ◌||◌, false, none, some, List, [], ◌∷◌, ◌++◌, String, Result,
  ok, err, err_ok, bind-ok, >>=-eq-ok, ok-injective, Result-cases, Option-cases, inl, inr,
  Bool-cases, ◌==◌,
}
use a4s.Prelude.Map
use a4s.Lease.Release.{release-frees, has_id}
use a4s.Types.Goal.{Goal}
use a4s.Types.World.{World}
use a4s.Types.Action.{Action, kind_text, Proposal, Check}
use a4s.Types.Evidence.{Evidence}
use a4s.Projection.{project, replay}
use a4s.Eventlog.{Event}
use a4s.Engine.{
  Engine, Wiring, Prober, Run, after, then_fail, creates, ◌>>=◌, ◌>>◌, stamped, record_event,
  observed_world, project_evidence, ensure_probe_target, register_probe_target,
}
use a4s.Engine.Execute.{
  run_action, run_actions, advance_world, action_note, action_event, carried, dated, observation,
  probe_once, probe_all, observe, verify, verdict, verify_checks, or_blocked, execute_proposal,
}

-- The evidence that a log of events holds.
abbrev pub evidence_of : List Event → List Evidence
evidence_of [] = []
evidence_of (v ∷ vs) = elim v.evidence [ none ↦ evidence_of vs | some e ↦ e ∷ evidence_of vs ]

-- The world of the engine is the one that its events rebuild.
abbrev pub Rebuilt : World → Engine → Type 0
Rebuilt w e = replay w (evidence_of e.events) ≡ ok e.world

evidence_of-none :
    (vs : List Event) (v : Event) → v.evidence ≡ none → evidence_of (vs ++ v ∷ []) ≡ evidence_of vs
evidence_of-none [] v h = rw h refl
evidence_of-none (x ∷ vs) v h = elim (Option-cases x.evidence) [
  | inl e ↦ rw e (evidence_of-none vs v h)
  | inr (y, e) ↦ rw e (ap (λ l. y ∷ l) (evidence_of-none vs v h))
]

evidence_of-some :
    (vs : List Event) (v : Event) (y : Evidence)
    → v.evidence ≡ some y
    → evidence_of (vs ++ v ∷ []) ≡ evidence_of vs ++ y ∷ []
evidence_of-some [] v y h = rw h refl
evidence_of-some (x ∷ vs) v y h = elim (Option-cases x.evidence) [
  | inl e ↦ rw e (evidence_of-some vs v y h)
  | inr (z, e) ↦ rw e (ap (λ l. z ∷ l) (evidence_of-some vs v y h))
]

replay-snoc :
    (es : List Evidence) (w u v : World) (y : Evidence)
    → replay w es ≡ ok u
    → project u y ≡ ok v
    → replay w (es ++ y ∷ []) ≡ ok v
unfolding replay
replay-snoc [] w u v y h p = bind-ok (project w y) ok (ap (λ x. project x y) (ok-injective h) ∙ p)
replay-snoc (x ∷ es) w u v y h p =
    let (next, step, rest) = >>=-eq-ok (project w x) (λ z. replay z es) h in
    bind-ok (project w x) (λ z. replay z (es ++ y ∷ [])) step ∙ replay-snoc es next u v y rest p

-- A call that succeeds keeps the world rebuilt.
abbrev Keeps : World → {A : Type 0} → Run A → Type 0
Keeps w {A} m = (e : Engine) (a : A) → Rebuilt w e → (m e).1 ≡ ok a → Rebuilt w (m e).0

Keeps-then : (w : World) (m k : Run (Unit {0})) → Keeps w m → Keeps w k → Keeps w (m >> k)
unfolding ◌>>=◌
Keeps-then w m k hm hk e a r h = elim (Result-cases (m e).1) [
  | inl (s, f) ↦ absurd (err_ok (rw (◌>>=◌, f) at h))
  | inr (u, f) ↦ rw (◌>>=◌, f) (hk (m e).0 a (hm e u r f) (rw (◌>>=◌, f) at h))
]

-- An event without evidence.
record_event-Keeps :
    (w : World) (x : Wiring) (v : Event) → v.evidence ≡ none → Keeps w (record_event x v)
unfolding record_event
record_event-Keeps w x v n e a r h = elim (Result-cases (x.persist (stamped x e v))) [
  | inl (s, f) ↦ rw (record_event, f) r
  | inr (u, f) ↦
      rw (record_event, f) (ap (replay w) (evidence_of-none e.events (stamped x e v) n) ∙ r)
]

-- Evidence that is recorded after it was projected.
record_event-Rebuilt :
    (w u : World) (x : Wiring) (v : Event) (y : Evidence) (e : Engine) (a : Unit {0})
    → v.evidence ≡ some y
    → replay w (evidence_of e.events) ≡ ok u
    → project u y ≡ ok e.world
    → (record_event x v e).1 ≡ ok a
    → Rebuilt w (record_event x v e).0
unfolding record_event
record_event-Rebuilt w u x v y e a is r p h = elim (Result-cases (x.persist (stamped x e v))) [
  | inl (s, f) ↦ absurd (err_ok (rw (record_event, f) at h))
  | inr (b, f) ↦
      rw (record_event, f)
        (ap (replay w) (evidence_of-some e.events (stamped x e v) y is)
          ∙ replay-snoc (evidence_of e.events) w u e.world y r p)
]

project_evidence-ok :
    (e : Engine) (y : Evidence) (u : World)
    → project e.world y ≡ ok u
    → project_evidence y e ≡ (record e { world = u }, ok tt)
unfolding project_evidence
project_evidence-ok e y u h = rw (project_evidence, h) refl

project_evidence-err :
    (e : Engine) (y : Evidence) (m : String)
    → project e.world y ≡ err m
    → project_evidence y e ≡ (e, err m)
unfolding project_evidence
project_evidence-err e y m h = rw (project_evidence, h) refl

-- A first call whose outcome is known.
then-ok : (m k : Run (Unit {0})) (e f : Engine) (u : Unit {0}) → m e ≡ (f, ok u) → (m >> k) e ≡ k f
unfolding ◌>>=◌
then-ok m k e f u h = ap (λ q. after q (λ _. k)) h

then-err :
    (m k : Run (Unit {0})) (e f : Engine) (s : String) → m e ≡ (f, err s) → (m >> k) e ≡ (f, err s)
unfolding ◌>>=◌
then-err m k e f s h = ap (λ q. after q (λ _. k)) h

-- A call that has the outcome of another, on another engine.
abbrev Outcome : World → Engine × Result (Unit {0}) → Type 0
Outcome w p = (a : Unit {0}) → p.1 ≡ ok a → Rebuilt w p.0

failed-Outcome : (w : World) (f : Engine) (s : String) → Outcome w (f, err s)
failed-Outcome w f s = λ a h. absurd (err_ok h)

observed-Keeps :
    (w : World) (x : Wiring) (v : Event) (y : Evidence)
    → v.evidence ≡ some y
    → Keeps w (project_evidence y >> record_event x v)
observed-Keeps w x v y is e a r = elim (Result-cases (project e.world y)) [
  | inl (s, f) ↦
      subst (Outcome w)
        (sym
          (then-err (project_evidence y) (record_event x v) e e s (project_evidence-err e y s f)))
        (failed-Outcome w e s) a
  | inr (u, f) ↦
      subst (Outcome w)
        (sym (
          then-ok (project_evidence y) (record_event x v) e (record e { world = u }) tt
            (project_evidence-ok e y u f)))
        (λ b. record_event-Rebuilt w e.world x v y (record e { world = u }) b is r f) a
]

probe_once-Keeps :
    (w : World) (x : Wiring) (g : Goal) (p : Proposal) (check : Check) (prober : Prober)
    → Keeps w (probe_once x g p check prober)
unfolding probe_once
probe_once-Keeps w x g p check prober e a r h =
    elim (Option-cases (prober e.probe_targets (observed_world x e) check)) [
      | inl n ↦ rw (probe_once, n) r
      | inr (y, f) ↦
          rw (probe_once, f)
            (observed-Keeps w x (observation x g p check y) y refl e a r (rw (probe_once, f) at h))
    ]

probe_all-Keeps :
    (probers : List Prober) (w : World) (x : Wiring) (g : Goal) (p : Proposal) (check : Check)
    → Keeps w (probe_all x g p check probers)
unfolding probe_all
probe_all-Keeps [] w x g p check = λ e a r h. r
probe_all-Keeps (prober ∷ probers) w x g p check =
    Keeps-then w (probe_once x g p check prober) (probe_all x g p check probers)
      (probe_once-Keeps w x g p check prober) (probe_all-Keeps probers w x g p check)

observe-Keeps :
    (checks : List Check) (w : World) (x : Wiring) (g : Goal) (p : Proposal)
    → Keeps w (observe x g p checks)
unfolding observe
observe-Keeps [] w x g p = λ e a r h. r
observe-Keeps (check ∷ checks) w x g p =
    Keeps-then w (probe_all x g p check x.probers) (observe x g p checks)
      (probe_all-Keeps x.probers w x g p check) (observe-Keeps checks w x g p)

-- A call after which the engine fails whatever it answers.
fail-Outcome :
    (w : World) (m : Run (Unit {0})) (s : String) (e : Engine) → Outcome w (then_fail m s e)
unfolding ◌>>=◌
fail-Outcome w m s e a h = elim (Result-cases (m e).1) [
  | inl (t, f) ↦ absurd (err_ok (rw (◌>>=◌, f) at h))
  | inr (u, f) ↦ absurd (err_ok (rw (◌>>=◌, f) at h))
]

then-Outcome :
    (w : World) (m k : Run (Unit {0})) (e : Engine) (s : String)
    → (m e).1 ≡ err s
    → Outcome w ((m >> k) e)
unfolding ◌>>=◌
then-Outcome w m k e s f a h = absurd (err_ok (rw (◌>>=◌, f) at h))

fails :
    (m : Run (Unit {0})) (s : String) (e : Engine) → (t : String) × ((then_fail m s e).1 ≡ err t)
unfolding ◌>>=◌
fails m s e = elim (Result-cases (m e).1) [
  | inl (t, f) ↦ (t, rw (◌>>=◌, f) refl)
  | inr (u, f) ↦ (s, rw (◌>>=◌, f) refl)
]

verify-Keeps : (w : World) (x : Wiring) (g : Goal) (p : Proposal) → Keeps w (verify x g p)
unfolding verify
verify-Keeps w x g p e a r h =
    elim (Result-cases (verify_checks x.clock (observed_world x e) p.expected_evidence)) [
      | inr (u, f) ↦ rw (verify, f) r
      | inl (m, f) ↦
          rw (verify, f)
            (fail-Outcome w (record_event x (verdict g p m)) m e a (rw (verify, f) at h))
    ]

ensure_probe_target-same :
    (w : World) (g : Goal) (id : String) (e : Engine)
    → Rebuilt w e
    → Rebuilt w (ensure_probe_target g id e)
unfolding ensure_probe_target
ensure_probe_target-same w g id e r = elim (Bool-cases (not e.has_probe_targets || id == "")) [
  | inl b ↦ rw b r
  | inr b ↦ elim (Option-cases (Map.get e.probe_targets id)) [
    | inl n ↦ rw (b, n) r
    | inr (t, f) ↦ rw (b, f) r
  ]
]

register-same :
    (w : World) (g : Goal) (a : Action) (e : Engine)
    → Rebuilt w e
    → Rebuilt w (register_probe_target g a e)
unfolding register_probe_target
register-same w g a e r = elim (Bool-cases (creates a.kind)) [
  | inl b ↦ rw b (ensure_probe_target-same w g a.target e r)
  | inr b ↦ rw b r
]

advance_world-ok :
    (x : Wiring) (g : Goal) (p : Proposal) (a : Action) (y : Evidence) (e : Engine) (u : World)
    → project e.world y ≡ ok u
    → advance_world x g p a y e ≡ (record e { world = u }, ok tt)
unfolding advance_world
advance_world-ok x g p a y e u h = ap (or_blocked x g p a e) (project_evidence-ok e y u h)

advance_world-err :
    (x : Wiring) (g : Goal) (p : Proposal) (a : Action) (y : Evidence) (e : Engine) (m : String)
    → project e.world y ≡ err m
    → (t : String) × ((advance_world x g p a y e).1 ≡ err t)
unfolding advance_world
advance_world-err x g p a y e m h =
    let (t, f) =
      fails (action_note "goal.blocked" "projection" g p a m none x)
        "project evidence for action %q: %w" e in
    (t, ap (λ q. (or_blocked x g p a e q).1) (project_evidence-err e y m h) ∙ f)

completed-Outcome :
    (w : World) (x : Wiring) (g : Goal) (p : Proposal) (a : Action) (v : Event) (y : Evidence)
    (e : Engine)
    → v.evidence ≡ some y
    → Rebuilt w e
    → Outcome w ((advance_world x g p a y >> record_event x v) e)
completed-Outcome w x g p a v y e is r = elim (Result-cases (project e.world y)) [
  | inl (m, f) ↦
      let (t, failed) = advance_world-err x g p a y e m f in
      then-Outcome w (advance_world x g p a y) (record_event x v) e t failed
  | inr (u, f) ↦
      subst (Outcome w)
        (sym (
          then-ok (advance_world x g p a y) (record_event x v) e (record e { world = u }) tt
            (advance_world-ok x g p a y e u f)))
        (λ b. record_event-Rebuilt w e.world x v y (record e { world = u }) b is r f)
]

carried-Keeps :
    (w : World) (x : Wiring) (g : Goal) (p : Proposal) (a : Action) (answer : Result Evidence)
    → Keeps w (carried x g p a answer)
carried-Keeps w x g p a (err m) =
    λ e u r h. fail-Outcome w (action_note "goal.blocked" "node-executor" g p a m none x) m e u h
carried-Keeps w x g p a (ok y) = λ e u r h.
    completed-Outcome w x g p a
      (action_event "action.completed" "node-executor" g p a (kind_text a.kind) (some (dated x y)))
      (dated x y) (register_probe_target g a e) refl (register-same w g a e r) u h

run_action-Keeps :
    (w : World) (x : Wiring) (g : Goal) (p : Proposal) (a : Action) → Keeps w (run_action x g p a)
unfolding run_action
run_action-Keeps w x g p a =
    let v = action_event "action.dispatched" "coordinator" g p a (kind_text a.kind) none in
    Keeps-then w (record_event x v) (carried x g p a (x.execute a)) (record_event-Keeps w x v refl)
      (carried-Keeps w x g p a (x.execute a))

run_actions-Keeps :
    (actions : List Action) (w : World) (x : Wiring) (g : Goal) (p : Proposal)
    → Keeps w (run_actions x g p actions)
unfolding run_actions
run_actions-Keeps [] w x g p = λ e u r h. r
run_actions-Keeps (a ∷ actions) w x g p =
    Keeps-then w (run_action x g p a) (run_actions x g p actions) (run_action-Keeps w x g p a)
      (run_actions-Keeps actions w x g p)

-- However an execution ends, no lease with its id is left.
execute_proposal-released :
    (x : Wiring) (g : Goal) (p : Proposal) (lease_id t : String) (e : Engine)
    → has_id lease_id (Map.get (execute_proposal x g p lease_id e).0.leases.leases t) ≡ false
unfolding execute_proposal
execute_proposal-released x g p lease_id t e =
    elim (Option-cases (Map.get (execute_proposal x g p lease_id e).0.leases.leases t)) [
      | inl n ↦ rw n refl
      | inr (l, h) ↦
          rw h
            (release-frees
              ((run_actions x g p p.actions >> observe x g p p.expected_evidence >> verify x g p)
                e).0.leases
              lease_id t l h).1
    ]

-- An execution that ends well leaves exactly the world that its recorded events rebuild: a server
-- that restarts and replays the evidence of the log is where this one is. No target is left under a
-- lease with the id of the execution.
pub execute_proposal-rebuilt :
    (x : Wiring) (g : Goal) (p : Proposal) (lease_id t : String) (w : World) (e f : Engine)
    → replay w (evidence_of e.events) ≡ ok e.world
    → execute_proposal x g p lease_id e ≡ (f, ok tt)
    → (replay w (evidence_of f.events) ≡ ok f.world)
      × (has_id lease_id (Map.get f.leases.leases t) ≡ false)
unfolding execute_proposal
execute_proposal-rebuilt x g p lease_id t w e f r h =
    let body =
      Keeps-then w (run_actions x g p p.actions >> observe x g p p.expected_evidence) (verify x g p)
        (Keeps-then w (run_actions x g p p.actions) (observe x g p p.expected_evidence)
          (run_actions-Keeps p.actions w x g p) (observe-Keeps p.expected_evidence w x g p))
        (verify-Keeps w x g p) in
    (
      subst (λ k. replay w (evidence_of k.events) ≡ ok k.world) (ap (λ q. q.0) h)
          (body e tt r (ap (λ q. q.1) h)),
      subst (λ k. has_id lease_id (Map.get k.leases.leases t) ≡ false) (ap (λ q. q.0) h)
          (execute_proposal-released x g p lease_id t e),
    )
