-- ===== src/Types/World.antt =====
-- control/types.go: the observed world, and the predicates on its parts. A time is the number of
-- nanoseconds since Go's zero time, so the zero time is 0 and no earlier time is modelled.
use a4s.Prelude.{
  ℕ, Bool, true, false, ◌&&◌, ◌||◌, not, Option, none, some, List, String, ◌==◌, ℤ, pos, ltb, eqb,
  lt_ℤ, if◌then◌else◌, add_int,
}
use a4s.Prelude.Map
use a4s.Prelude.Map.{Map}
use a4s.Types.Budget
use a4s.Types.Budget.{Budget}
use a4s.Types.Resources.{Resources}
use a4s.Types.Goal.{ToolGrant}

abbrev pub Time : Type 0
Time = ℕ

-- `t.IsZero()`
abbrev pub is_zero_time : Time → Bool
is_zero_time t = eqb t 0

-- `now.Before(t)`
abbrev pub before : Time → Time → Bool
before now t = ltb now t

pub data HandoffPhase : Type 0 where
  quiesced snapshotted transferred adopted : HandoffPhase

pub record VolumeHandoff : Type 0 where
  pub from : String
  pub to : String
  pub phase : HandoffPhase
  pub snapshot : String
  pub checksum : String

-- `generation` is a `uint64`.
pub record Volume : Type 0 where
  pub name : String
  pub node : String
  pub owner : String
  pub generation : ℕ
  pub size_mb : ℤ
  pub last_snapshot : String
  pub snapshots : Map String
  pub snapshot_order : List String
  pub restored_from : String
  pub verified_at : Time
  pub verified_snapshot : String
  pub handoff : Option VolumeHandoff
  pub backups : Map String

-- `revision` is a `uint64`.
pub record Approval : Type 0 where
  pub id : String
  pub goal_id : String
  pub scope : String
  pub issued_by : String
  pub granted : Bool
  pub issued_at : Time
  pub expires_at : Time
  pub revision : ℕ
  pub subject : String
  pub rollback : String
  pub reason : String

pub record ProviderReach : Type 0 where
  pub reachable : Bool
  pub observed_at : Time
  pub expires_at : Time
  pub detail : String

pub record Node : Type 0 where
  pub id : String
  pub labels : Map String
  pub capacity : Resources
  pub used : Resources
  pub images : Map Bool
  pub healthy : Bool
  pub domain : String
  pub cordoned : Bool
  pub cordon_reason : String
  pub address : String
  pub gateway_port : ℤ
  pub zone_fingerprint : String
  pub policy_fingerprint : String
  pub providers : Map ProviderReach
  pub budget_capacity : Budget
  pub budget_used : Budget

pub data AllocationPhase : Type 0 where
  created running stopped : AllocationPhase

pub record Allocation : Type 0 where
  pub id : String
  pub workload : String
  pub replica : ℤ
  pub node : String
  pub image : String
  pub resources : Resources
  pub phase : AllocationPhase
  pub ready : Bool
  pub stateful : Bool
  pub volumes : Map ℕ
  pub secrets : Map String
  pub address : String
  pub exit_code : ℤ
  pub restarts : ℤ
  pub ready_expires_at : Time
  pub ready_since : Time
  pub budget : Budget
  pub spent : Budget
  pub draining : Bool
  pub task : String
  pub tools : List ToolGrant

pub record Route : Type 0 where
  pub host : String
  pub workload : String
  pub port : ℤ
  pub exposure : String

pub record Queue : Type 0 where
  pub name : String
  pub workload : String
  pub depth : ℤ
  pub in_flight : ℤ
  pub max_workers : ℤ
  pub observed_at : Time

-- control/disruption.go
pub record Disruption : Type 0 where
  pub target : String
  pub workload : String
  pub node : String
  pub domain : String
  pub kind : String
  pub at : Time

-- control/disruption.go
pub record Backoff : Type 0 where
  pub failures : ℤ
  pub until : Time
  pub last_failure : Time

-- `revision` is a `uint64`.
pub record World : Type 0 where
  pub revision : ℕ
  pub observed_at : Time
  pub nodes : Map Node
  pub allocations : Map Allocation
  pub routes : Map Route
  pub volumes : Map Volume
  pub queues : Map Queue
  pub approvals : Map Approval
  pub known_good : Map String
  pub disruptions : List Disruption
  pub backoff : Map Backoff

-- `World.Now`: the observation time, or the wall clock of a world that was never observed.
unfoldable pub now : Time → World → Time
now clock w = if is_zero_time w.observed_at then clock else w.observed_at

-- `Approval.Valid`, of a grant that is present.
unfoldable pub valid : Approval → Time → Bool
valid a t = if not a.granted then false else is_zero_time a.expires_at || before t a.expires_at

unfoldable pub can_reach : Node → String → Time → Bool
can_reach n provider t = elim (Map.get n.providers provider) [
  | none ↦ false
  | some reach ↦
      if not reach.reachable
      then false
      else is_zero_time reach.expires_at || before t reach.expires_at
]

-- The methods of `*Allocation`, of an allocation that is present.
unfoldable pub exhausted : Allocation → Bool
unfolding Budget.is_zero Budget.exhausts
exhausted a = if Budget.is_zero a.budget then false else Budget.exhausts a.spent a.budget

unfoldable pub drained : Allocation → Bool
drained a = a.draining && a.task == ""

unfoldable pub ready_at : Allocation → Time → Bool
ready_at a t =
    if not a.ready then false else is_zero_time a.ready_expires_at || before t a.ready_expires_at

-- `Queue.DesiredWorkers`, of a queue that is present.
unfoldable pub desired_workers : Queue → ℤ → ℤ
desired_workers q running_now =
    let wanted = add_int running_now q.depth in
    let desired = if lt_ℤ q.max_workers wanted then q.max_workers else wanted in
    if lt_ℤ desired (pos 0) then pos 0 else desired

-- control/spread.go, `Node.FailureDomain` of a node that is present: a node that declares no
-- domain is its own.
unfoldable pub failure_domain : Node → String
failure_domain n = if n.domain == "" then n.id else n.domain

-- control/node_lifecycle.go, `Node.Schedulable` of a node that is present.
unfoldable pub schedulable : Node → Bool
schedulable n = n.healthy && not n.cordoned

-- control/disruption.go, `Backoff.Active` of a state that is present.
unfoldable pub active : Backoff → Time → Bool
active b t = not (is_zero_time b.until) && before t b.until

abbrev pub phase_is : AllocationPhase → AllocationPhase → Bool
phase_is created created = true
phase_is running running = true
phase_is stopped stopped = true
phase_is _ _ = false

abbrev pub handoff_is : HandoffPhase → HandoffPhase → Bool
handoff_is quiesced quiesced = true
handoff_is snapshotted snapshotted = true
handoff_is transferred transferred = true
handoff_is adopted adopted = true
handoff_is _ _ = false
