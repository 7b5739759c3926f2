-- ===== src/Engine.antt =====
-- control/engine.go: how an authorized proposal is executed and observed. `project` of the projection
-- is the only thing that changes the world. What the engine calls is in `Wiring`.
pub mod Execute
pub mod Rebuild
use a4s.Prelude.{
  ℕ, suc, ◌+◌, Bool, true, false, ◌&&◌, ◌||◌, not, Option, none, some, List, [], ◌∷◌, ◌++◌, String,
  ◌==◌, if◌then◌else◌, ℤ, pos, lt_ℤ, is_some, Result, ok, err,
}
use a4s.Prelude.Map
use a4s.Prelude.Map.{Map}
use a4s.Types.Goal.{Goal}
use a4s.Types.World.{World, Time, is_zero_time, before}
use a4s.Types.Action.{Action, ActionKind, ProbeTarget, Proposal, Check, kind_text}
use a4s.Types.Evidence.{Evidence, EvidenceKind}
use a4s.Projection.{project}
use a4s.Lease.{LeaseManager}
use a4s.Eventlog.{Event}

abbrev pub Prober : Type 0
Prober = Map ProbeTarget → World → Check → Option Evidence

-- The executor, the sink and the sequence number that it gives after a number of events, the
-- probers, the clock, and the text of an evidence kind, which in the source is a text.
pub record Wiring : Type 0 where
  pub execute : Action → Result Evidence
  pub persist : Event → Result (Unit {0})
  pub next_sequence : ℕ → ℕ
  pub probers : List Prober
  pub clock : Time
  pub kind_name : EvidenceKind → String

-- `has_probe_targets` is whether the map of probe targets is not nil.
pub record Engine : Type 0 where
  pub world : World
  pub events : List Event
  pub leases : LeaseManager
  pub probe_targets : Map ProbeTarget
  pub has_probe_targets : Bool

-- A call on the engine that may fail; what it did until then stays.
abbrev pub Run : Type 0 → Type 0
Run A = Engine → Engine × Result A

abbrev pub after : {A B : Type 0} → Engine × Result A → (A → Run B) → Engine × Result B
after q next = elim q.1 [ ok a ↦ next a q.0 | err message ↦ (q.0, err message) ]

infixl 5 ◌>>=◌ ◌>>◌
unfoldable pub ◌>>=◌ : {A B : Type 0} (m : Run A) (next : A → Run B) → Run B
(m >>= next) e = after (m e) next

abbrev pub ◌>>◌ : {B : Type 0} → Run (Unit {0}) → Run B → Run B
m >> k = m >>= λ _. k

abbrev pub return : {A : Type 0} → A → Run A
return a e = (e, ok a)

abbrev pub fail : {A : Type 0} → String → Run A
fail message e = (e, err message)

-- A call and then the error.
abbrev pub then_fail : Run (Unit {0}) → String → Run (Unit {0})
then_fail m message = m >> fail message

unfoldable pub count_events : List Event → ℕ
count_events [] = 0
count_events (_ ∷ es) = suc (count_events es)

-- What a caller of `record` fills in.
abbrev pub note :
    (type_name actor goal_id proposal_id action_id target kind message : String)
    → Option Evidence
    → Event
note type_name actor goal_id proposal_id action_id target kind message evidence = record {
  sequence = 0;
  at = 0;
  type_name = type_name;
  actor = actor;
  goal_id = goal_id;
  proposal_id = proposal_id;
  action_id = action_id;
  target = target;
  kind = kind;
  world_revision = 0;
  message = message;
  evidence = evidence;
}

-- An event as it is recorded.
abbrev pub stamped : Wiring → Engine → Event → Event
stamped x e event = record event {
  sequence = x.next_sequence (count_events e.events);
  at = x.clock;
  world_revision = e.world.revision;
}

-- `record`
unfoldable pub record_event : Wiring → Event → Run (Unit {0})
unfolding count_events
record_event x event e = elim (x.persist (stamped x e event)) [
  | err _ ↦ (e, err "persist %s event: %w")
  | ok _ ↦ (record e { events = e.events ++ stamped x e event ∷ [] }, ok tt)
]

-- `observedWorld`
unfoldable pub observed_world : Wiring → Engine → World
observed_world x e =
    if before e.world.observed_at x.clock then record e.world { observed_at = x.clock } else e.world

-- `World.Project`
unfoldable pub project_evidence : Evidence → Run (Unit {0})
unfolding project
project_evidence evidence e = elim (project e.world evidence) [
  | err m ↦ (e, err m)
  | ok w ↦ (record e { world = w }, ok tt)
]

-- What readiness means for an allocation of the goal.
abbrev pub inferred_target : Goal → World → String → ProbeTarget
inferred_target g w allocation =
    let by_port = if lt_ℤ (pos 0) g.workload.port then "tcp" else "process" in
    let by_engine = if g.workload.engine == "" then by_port else "database" in
    record {
      allocation = allocation;
      kind = elim g.workload.runtime as (λ _. String) [ none ↦ by_engine | some _ ↦ "agent" ];
      port = g.workload.port;
      path = "";
      provider = elim g.workload.runtime as (λ _. String) [ none ↦ "" | some r ↦ r.provider ];
      address = "";
      engine = g.workload.engine;
      node = elim (Map.get w.allocations allocation) as (λ _. String) [
        | none ↦ ""
        | some a ↦ a.node
      ];
    }

abbrev pub placed_target : World → String → ProbeTarget → ProbeTarget
placed_target w allocation existing = elim (Map.get w.allocations allocation) [
  | none ↦ existing
  | some a ↦ record existing { node = a.node }
]

unfoldable pub ensure_probe_target : Goal → String → Engine → Engine
ensure_probe_target g allocation e =
    if not e.has_probe_targets || allocation == ""
    then e
    else elim (Map.get e.probe_targets allocation) [
      | some existing ↦ record e {
        probe_targets =
            Map.put e.probe_targets allocation (placed_target e.world allocation existing);
      }
      | none ↦ record e {
        probe_targets = Map.put e.probe_targets allocation (inferred_target g e.world allocation);
      }
    ]

abbrev pub creates : ActionKind → Bool
creates ActionKind.create_allocation = true
creates _ = false

-- `registerProbeTarget`
unfoldable pub register_probe_target : Goal → Action → Engine → Engine
unfolding ensure_probe_target
register_probe_target g action e =
    if creates action.kind then ensure_probe_target g action.target e else e
