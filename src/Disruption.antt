-- ===== src/Disruption.antt =====
-- control/disruption.go: the ledger of disruptions and the failure backoff that a projection
-- writes. Durations are in nanoseconds.
pub mod Delays
use a4s.Prelude.{
  ℕ, zero, suc, ◌+◌, ◌*◌, Option, none, some, List, [], ◌∷◌, ◌++◌, String, ℤ, pos, negsuc, ltb, leb,
  add_int, if◌then◌else◌,
}
use a4s.Prelude.Map
use a4s.Types.World.{
  World, Allocation, Disruption, Backoff, Time, is_zero_time, phase_is, stopped, failure_domain,
}

abbrev pub second : ℕ
second = 1_000_000_000

abbrev pub default_disruption_window : ℕ
default_disruption_window = 600 * second

abbrev pub default_max_disruptions : ℕ
default_max_disruptions = 12

abbrev pub default_disruption_cooldown : ℕ
default_disruption_cooldown = 30 * second

abbrev pub disruption_retention : ℕ
disruption_retention = 3600 * second

abbrev pub base_backoff : ℕ
base_backoff = 15 * second

abbrev pub max_backoff : ℕ
max_backoff = 600 * second

-- The loop of `backoffFor`, with the rounds that are left.
unfoldable pub double_backoff : ℕ → ℕ → ℕ
double_backoff zero delay = delay
double_backoff (suc rounds) delay =
    let more = double_backoff rounds (delay * 2) in
    if leb max_backoff (delay * 2) then max_backoff else more

unfoldable pub backoff_for : ℤ → ℕ
unfolding double_backoff
backoff_for (negsuc n) = base_backoff
backoff_for (pos zero) = base_backoff
backoff_for (pos (suc n)) = double_backoff n base_backoff

-- The entries later than `span` before `at`: `at.Add(-span)` is moved to the other side.
unfoldable pub later_than : Time → ℕ → List Disruption → List Disruption
later_than at span [] = []
later_than at span (d ∷ ds) =
    let rest = later_than at span ds in if ltb at (d.at + span) then d ∷ rest else rest

unfoldable pub ledger_domain : World → Allocation → String
ledger_domain w a = elim (Map.get w.nodes a.node) [ none ↦ "" | some n ↦ failure_domain n ]

unfoldable pub record_disruption : World → Allocation → String → Time → World
unfolding later_than ledger_domain
record_disruption w a kind at =
    if is_zero_time at
    then w
    else if phase_is a.phase stopped
    then w
    else let entry : Disruption = record {
      target = a.id;
      workload = a.workload;
      node = a.node;
      domain = ledger_domain w a;
      kind = kind;
      at = at;
    } in
      record w { disruptions = later_than at disruption_retention (w.disruptions ++ entry ∷ []) }

abbrev pub no_failures : Backoff
no_failures = record { failures = pos 0; until = 0; last_failure = 0 }

abbrev pub or_no_failures : Option Backoff → Backoff
or_no_failures none = no_failures
or_no_failures (some b) = b

unfoldable pub fail_once : Backoff → Time → Backoff
fail_once b at =
    let failures : ℤ = add_int b.failures (pos 1) in
    record { failures = failures; until = at + backoff_for failures; last_failure = at }

unfoldable pub record_failure : World → String → Time → World
unfolding fail_once
record_failure w target at = record w {
  backoff = Map.put w.backoff target (fail_once (or_no_failures (Map.get w.backoff target)) at);
}

unfoldable pub clear_backoff : World → String → World
clear_backoff w target = record w { backoff = Map.delete w.backoff target }
