-- ===== src/Disruption/Delays.antt =====
-- control/disruption.go, `backoffFor`: the delay after failures in a row.
use a4s.Prelude.{ℕ, zero, suc, ◌*◌, ◌≤◌, ℤ, pos, negsuc, arith}
use a4s.Disruption.{double_backoff, backoff_for, base_backoff, max_backoff}

double_backoff-bounds :
    (r delay : ℕ)
    → base_backoff ≤ delay
    → delay ≤ max_backoff
    → (base_backoff ≤ double_backoff r delay) × (double_backoff r delay ≤ max_backoff)
unfolding double_backoff
double_backoff-bounds zero delay lo hi = (lo, hi)
double_backoff-bounds (suc r) delay lo hi = ground (arith, double_backoff-bounds r (delay * 2))

double_backoff-grows :
    (r delay : ℕ) → delay ≤ max_backoff → double_backoff r delay ≤ double_backoff (suc r) delay
unfolding double_backoff
double_backoff-grows zero delay hi = ground arith
double_backoff-grows (suc r) delay hi = ground (arith, double_backoff-grows r (delay * 2))

-- The delay is never shorter than the base delay nor longer than the longest one, for any number
-- of failures.
pub backoff_for-bounds :
    (failures : ℤ) → (base_backoff ≤ backoff_for failures) × (backoff_for failures ≤ max_backoff)
unfolding backoff_for
backoff_for-bounds (negsuc n) = ground arith
backoff_for-bounds (pos zero) = ground arith
backoff_for-bounds (pos (suc n)) =
    double_backoff-bounds n base_backoff (ground arith) (ground arith)

-- One more failure never shortens the delay.
pub backoff_for-grows : (n : ℕ) → backoff_for (pos n) ≤ backoff_for (pos (suc n))
unfolding backoff_for double_backoff
backoff_for-grows zero = ground arith
backoff_for-grows (suc n) = double_backoff-grows n base_backoff (ground arith)
