-- ===== src/Canary/Share.antt =====
-- control/canary.go: how much traffic is given, and how it is divided.
use a4s.Prelude.{
  ℕ, zero, suc, ◌+◌, ◌*◌, ◌-◌, ◌/◌, ◌%◌, ◌≤◌, ◌<◌, ◌≡◌, refl, ◌∙◌, false, List, [], ◌∷◌, ◌++◌,
  String, ltb, eqb, arith, Bool-cases, inl, inr,
}
use native.Mathlib.Nat.{mod-lt, div-add-mod}
use a4s.Prelude.Map.{Map}
use a4s.Canary.{
  Endpoint, WeightedEndpoint, count_endpoints, share_from, share_across, insert_weighted,
  sort_weighted, split_weights, text_before,
}

abbrev pub total_weight : List WeightedEndpoint → ℕ
total_weight [] = 0
total_weight (w ∷ ws) = w.weight + total_weight ws

nonzero : (n : ℕ) → 1 ≤ n → eqb n 0 ≡ false
nonzero n h = ground arith

share_from-total :
    (es : List Endpoint) (versions : Map String) (each remainder index : ℕ)
    → 1 ≤ each
    → remainder ≤ index + count_endpoints es
    → total_weight (share_from versions each remainder index es)
      ≡ count_endpoints es * each + (remainder - index)
unfolding share_from count_endpoints
share_from-total [] versions each remainder index some' h = omega arith
share_from-total (e ∷ es) versions each remainder index some' h =
    let rest = share_from-total es versions each remainder (suc index) some' (omega arith) in
    elim (Bool-cases (ltb index remainder)) [
      | inl more ↦ rw (more, nonzero (each + 1) (omega arith)) (ground (arith, rest, more))
      | inr done ↦ rw (done, nonzero each some') (ground (arith, rest, done))
    ]

positive_share : (n share q r : ℕ) → n * q + r ≡ share → r < n → n ≤ share → 1 ≤ q
positive_share n share zero r h k l = absurd (omega (arith, h, k, l))
positive_share n share (suc q) r h k l = omega arith

-- A percentage is divided without loss: with an endpoint for it, and no more endpoints than percents,
-- the weights of one side add up to exactly its share.
pub share_across-total :
    (versions : Map String) (es : List Endpoint) (share : ℕ)
    → 1 ≤ count_endpoints es
    → count_endpoints es ≤ share
    → total_weight (share_across versions es share) ≡ share
unfolding share_across
share_across-total versions es share some' fit =
    let n = count_endpoints es in
    rw (nonzero n some', nonzero share (omega arith))
      (share_from-total es versions (share / n) (share % n) 0
          (positive_share n share (share / n) (share % n) (div-add-mod share n) (mod-lt share some')
            fit)
          (omega (arith, mod-lt share some'))
        ∙ omega (arith, div-add-mod share n))

total_weight-insert :
    (ws : List WeightedEndpoint) (w : WeightedEndpoint)
    → total_weight (insert_weighted w ws) ≡ w.weight + total_weight ws
unfolding insert_weighted
total_weight-insert [] w = refl
total_weight-insert (x ∷ xs) w =
    elim (Bool-cases (text_before w.endpoint.allocation x.endpoint.allocation)) [
      | inl e ↦ rw e refl
      | inr e ↦ rw e (omega (arith, total_weight-insert xs w))
    ]

total_weight-sort :
    (ws sorted : List WeightedEndpoint)
    → total_weight (sort_weighted sorted ws) ≡ total_weight sorted + total_weight ws
unfolding sort_weighted
total_weight-sort [] sorted = omega arith
total_weight-sort (w ∷ ws) sorted =
    omega (arith, total_weight-sort ws (insert_weighted w sorted), total_weight-insert sorted w)

total_weight-append :
    (xs ys : List WeightedEndpoint) → total_weight (xs ++ ys) ≡ total_weight xs + total_weight ys
total_weight-append [] ys = omega arith
total_weight-append (x ∷ xs) ys = omega (arith, total_weight-append xs ys)

-- While both versions serve, and neither has more endpoints than its percentage, the weights of all
-- endpoints add up to exactly 100, of which the new version has its step.
pub split_weights-total :
    (versions : Map String) (step : ℕ) (target previous : List Endpoint)
    → 1 ≤ count_endpoints target
    → 1 ≤ count_endpoints previous
    → count_endpoints target ≤ step
    → step + count_endpoints previous ≤ 100
    → (total_weight (split_weights versions step target previous) ≡ 100)
      × (total_weight (share_across versions target step) ≡ step)
unfolding split_weights
split_weights-total versions step [] previous one other fit room = absurd (omega (arith, one))
split_weights-total versions step (t ∷ target) [] one other fit room = absurd (omega (arith, other))
split_weights-total versions step (t ∷ target) (p ∷ previous) one other fit room =
    let new = share_across versions (t ∷ target) step in
    let old = share_across versions (p ∷ previous) (100 - step) in
    let news = share_across-total versions (t ∷ target) step one fit in
    let olds =
      share_across-total versions (p ∷ previous) (100 - step) other (omega (arith, room)) in
    (
      omega (
        arith,
        total_weight-sort (new ++ old) [],
        total_weight-append new old,
        news,
        olds,
        fit,
        room,
      ),
      news,
    )
