-- ===== src/Lease.antt =====
-- control/lease.go: advisory leases on the targets of a proposal.
pub mod Exclusion
pub mod Release
use a4s.Prelude.{
  ℕ, ◌+◌, Bool, true, false, ◌&&◌, ◌||◌, not, Option, none, some, List, [], ◌∷◌, String, ◌==◌,
  if◌then◌else◌, Result, ok, err,
}
use a4s.Prelude.Map
use a4s.Prelude.Map.{Map}
use a4s.Types.World.{Time, before}
use a4s.Types.Action.{Action, ActionKind}
use a4s.Kernel.Rules.{mem}

pub record Lease : Type 0 where
  pub target : String
  pub proposal_id : String
  pub goal_id : String
  pub id : String
  pub expires_at : Time

-- The fields of `LeaseManager` that operations read, but the clock, whose answer each operation
-- takes as `now`. `lease_id` is the `fmt.Sprintf` of a proposal and a time.
pub record LeaseManager : Type 0 where
  pub leases : Map Lease
  pub ttl : ℕ
  pub lease_id : String → Time → String

-- Whether another proposal holds an unexpired lease on a target.
unfoldable pub is_blocked : LeaseManager → Time → String → String → Bool
is_blocked m now proposal target = elim (Map.get m.leases target) [
  | none ↦ false
  | some existing ↦ before now existing.expires_at && not (existing.proposal_id == proposal)
]

abbrev pub any_blocked : LeaseManager → Time → String → List String → Bool
any_blocked m now proposal [] = false
any_blocked m now proposal (t ∷ ts) = is_blocked m now proposal t || any_blocked m now proposal ts

abbrev pub new_lease : LeaseManager → Time → String → String → String → Lease
new_lease m now goal proposal target = record {
  target = target;
  proposal_id = proposal;
  goal_id = goal;
  id = m.lease_id proposal now;
  expires_at = now + m.ttl;
}

-- The second loop of `Acquire`.
unfoldable pub grant_all : (String → Lease) → Map Lease → List String → Map Lease
grant_all lease leases [] = leases
grant_all lease leases (t ∷ ts) = grant_all lease (Map.put leases t (lease t)) ts

-- `Acquire`. The source sorts the targets first, which decides only the target that the error names.
unfoldable pub acquire :
    LeaseManager → Time → String → String → List String → Result (String × LeaseManager)
unfolding is_blocked grant_all
acquire m now goal proposal targets =
    if any_blocked m now proposal targets
    then err "target %q is leased by proposal %q until %s"
    else ok (
      m.lease_id proposal now,
      record m { leases = grant_all (new_lease m now goal proposal) m.leases targets },
    )

-- `Release`: the entries with the id are deleted.
unfoldable pub drop_leases : String → List (String × Lease) → Map Lease → Map Lease
drop_leases id [] leases = leases
drop_leases id ((target, lease) ∷ rest) leases =
    drop_leases id rest (if lease.id == id then Map.delete leases target else leases)

unfoldable pub release : LeaseManager → String → LeaseManager
unfolding drop_leases
release m id = record m { leases = drop_leases id m.leases.entries m.leases }

unfoldable pub holder : LeaseManager → Time → String → Option Lease
holder m now target = elim (Map.get m.leases target) [
  | none ↦ none
  | some lease ↦ if before now lease.expires_at then some lease else none
]

-- The kinds whose targets are leased.
abbrev pub takes_lease : ActionKind → Bool
takes_lease ActionKind.create_allocation = true
takes_lease ActionKind.start_allocation = true
takes_lease ActionKind.stop_allocation = true
takes_lease ActionKind.delete_allocation = true
takes_lease ActionKind.publish_route = true
takes_lease _ = false

-- `LeaseTargets`, without the sort, which `Acquire` repeats: the targets that are not in `found`.
unfoldable pub lease_targets : List String → List Action → List String
lease_targets found [] = []
lease_targets found (a ∷ as') =
    let skipped = lease_targets found as' in
    let taken = lease_targets (a.target ∷ found) as' in
    if not (takes_lease a.kind)
    then skipped
    else if a.target == "" || mem a.target found
    then skipped
    else a.target ∷ taken
