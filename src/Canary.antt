-- ===== src/Canary.antt =====
-- control/canary.go: the share of traffic that a new version is given. Counts and weights are not
-- negative.
pub mod Share
use a4s.Prelude.{
  ℕ, zero, suc, ◌+◌, ◌*◌, ◌-◌, ◌/◌, ◌%◌, Bool, true, false, ◌&&◌, ◌||◌, not, Option, none, some,
  List, [], ◌∷◌, ◌++◌, String, ◌==◌, if◌then◌else◌, ltb, leb, eqb, ℤ, pos, negsuc, lt_ℤ, le_ℤ, eq_ℤ,
  Result, ok, err, ◌>>=◌, ◌>>◌, refuse, int64_half,
}
use Prim.Native.String.{compare}
use Prim.Native.Nat.{Ordering}
use a4s.Prelude.Map
use a4s.Prelude.Map.{Map, count}
use a4s.Types.Goal.{Goal, Canary, Duration}
use a4s.Types.World.{World, Allocation, Time, now, ready_at, is_zero_time, before}

-- `Validate`. The last step that the loop saw is `previous`.
unfoldable pub check_steps : List ℤ → (previous : ℤ) → Result ℤ
unfolding ◌>>=◌
check_steps [] previous = ok previous
check_steps (s ∷ steps) previous = do
  refuse (lt_ℤ s (pos 1) || lt_ℤ (pos 100) s) "canary step %d must be between 1 and 100"
  refuse (le_ℤ s previous) "canary steps must strictly increase, got %d after %d"
  check_steps steps s

unfoldable pub validate : Option Canary → Result (Unit {0})
unfolding check_steps ◌>>=◌
validate none = ok tt
validate (some c) = elim c.steps [
  | [] ↦ err "canary needs at least one step"
  | ◌∷◌ s steps ↦ do
    last ← check_steps (s ∷ steps) (pos 0)
    refuse (not (eq_ℤ last (pos 100))) "the last canary step must be 100, got %d"
    refuse (lt_ℤ c.hold_for (pos 0)) "canary hold cannot be negative"
]

-- control/types.go, `Allocation.ReadyFor`. `Sub` stops at the largest duration.
unfoldable pub ready_for : Allocation → Time → ℕ
unfolding ready_at
ready_for a t =
    if not (ready_at a t) || is_zero_time a.ready_since || before t a.ready_since
    then 0
    else if ltb (t - a.ready_since) int64_half
    then t - a.ready_since
    else int64_half - 1

pub record CanaryState : Type 0 where
  pub target : String
  pub step : ℤ
  pub target_ready : ℕ
  pub previous_ready : ℕ
  pub complete : Bool
  pub held_for : ℕ

-- A ready allocation of the workload, on the image of the goal or on another.
abbrev pub serves_target : Goal → Time → Allocation → Bool
serves_target g t a = a.workload == g.workload.name && ready_at a t && a.image == g.workload.image

abbrev pub serves_previous : Goal → Time → Allocation → Bool
serves_previous g t a =
    a.workload == g.workload.name && ready_at a t && not (a.image == g.workload.image)

abbrev pub shorter : Option ℕ → ℕ → ℕ
shorter none ready = ready
shorter (some held) ready = if ltb ready held then ready else held

abbrev pub or_zero : Option ℕ → ℕ
or_zero none = 0
or_zero (some held) = held

-- The shortest readiness on the side of the target; `none` stands for -1.
unfoldable pub held_from : Goal → Time → List (String × Allocation) → Option ℕ → Option ℕ
unfolding ready_for
held_from g t [] held = held
held_from g t ((_, a) ∷ as') held =
    held_from g t as' (if serves_target g t a then some (shorter held (ready_for a t)) else held)

-- The last position of a step that a proportion supports, or 0.
unfoldable pub supported : List ℤ → (proportion position index : ℕ) → ℕ
supported [] proportion position index = index
supported (s ∷ steps) proportion position index =
    supported steps proportion (suc position) (if le_ℤ s (pos proportion) then position else index)

-- The position that a hold allows.
unfoldable pub held_index : Duration → (held_for index : ℕ) → ℕ
held_index (negsuc _) held_for index = index
held_index (pos hold) held_for index =
    if ltb 0 hold && ltb (held_for / hold) index then held_for / hold else index

unfoldable pub step_at : List ℤ → ℕ → Option ℤ
step_at [] n = none
step_at (s ∷ steps) zero = some s
step_at (s ∷ steps) (suc n) = step_at steps n

-- The step between the two ends; `none` stands for the panic that a ladder without steps causes.
unfoldable pub ladder_step : Canary → (target_ready previous_ready held_for : ℕ) → Option ℤ
unfolding supported held_index step_at
ladder_step c target_ready previous_ready held_for =
    let proportion = target_ready * 100 / (target_ready + previous_ready) in
    step_at c.steps (held_index c.hold_for held_for (supported c.steps proportion 0 0))

unfoldable pub evaluate_canary : Time → Goal → World → Option CanaryState
unfolding held_from ladder_step count ready_at now
evaluate_canary clock g w =
    let t = now clock w in
    let target_ready = count (serves_target g t) w.allocations in
    let previous_ready = count (serves_previous g t) w.allocations in
    let held_for = or_zero (held_from g t w.allocations.entries none) in
    let state : CanaryState = record {
      target = g.workload.image;
      step = pos 0;
      target_ready = target_ready;
      previous_ready = previous_ready;
      complete = false;
      held_for = held_for;
    } in
    elim g.canary [
      | none ↦ some (record state { target_ready = 0; previous_ready = 0; held_for = 0 })
      | some c ↦
          if eqb previous_ready 0
          then some (record state { step = pos 100; complete = ltb 0 target_ready })
          else if eqb target_ready 0
          then some state
          else elim (ladder_step c target_ready previous_ready held_for) [
            | none ↦ none
            | some s ↦ some (record state { step = s })
          ]
    ]

-- control/directory.go
pub record Endpoint : Type 0 where
  pub allocation : String
  pub node : String
  pub address : String
  pub port : ℤ

pub record WeightedEndpoint : Type 0 where
  pub endpoint : Endpoint
  pub weight : ℕ
  pub version : String

unfoldable pub count_endpoints : List Endpoint → ℕ
count_endpoints [] = 0
count_endpoints (_ ∷ es) = suc (count_endpoints es)

-- `versions[allocation]`
abbrev pub version_of : Map String → String → String
version_of versions allocation = elim (Map.get versions allocation) [ none ↦ "" | some v ↦ v ]

-- The loop of `shareAcross`, from an index.
unfoldable pub share_from :
    Map String → (each remainder index : ℕ) → List Endpoint → List WeightedEndpoint
share_from versions each remainder index [] = []
share_from versions each remainder index (e ∷ es) =
    let weight = if ltb index remainder then each + 1 else each in
    record {
      endpoint = e;
      weight = if eqb weight 0 then 1 else weight;
      version = version_of versions e.allocation;
    }
    ∷ share_from versions each remainder (suc index) es

unfoldable pub share_across : Map String → List Endpoint → (share : ℕ) → List WeightedEndpoint
unfolding share_from count_endpoints
share_across versions es share =
    if eqb (count_endpoints es) 0 || eqb share 0
    then []
    else share_from versions (share / count_endpoints es) (share % count_endpoints es) 0 es

abbrev pub text_before : String → String → Bool
text_before a b = elim (compare a b) [ Ordering.lt ↦ true | _ ↦ false ]

-- `sort.Slice` by allocation, which sorts a short slice by insertion.
unfoldable pub insert_weighted : WeightedEndpoint → List WeightedEndpoint → List WeightedEndpoint
insert_weighted w [] = w ∷ []
insert_weighted w (x ∷ xs) =
    let rest = insert_weighted w xs in
    if text_before w.endpoint.allocation x.endpoint.allocation then w ∷ x ∷ xs else x ∷ rest

unfoldable pub sort_weighted : (sorted ws : List WeightedEndpoint) → List WeightedEndpoint
unfolding insert_weighted
sort_weighted sorted [] = sorted
sort_weighted sorted (w ∷ ws) = sort_weighted (insert_weighted w sorted) ws

unfoldable pub equal_each : Map String → List Endpoint → List WeightedEndpoint
equal_each versions [] = []
equal_each versions (e ∷ es) =
    record { endpoint = e; weight = 1; version = version_of versions e.allocation }
    ∷ equal_each versions es

-- The images of the allocations, by id.
unfoldable pub versions_from : List (String × Allocation) → Map String → Map String
versions_from [] versions = versions
versions_from ((_, a) ∷ as') versions = versions_from as' (Map.put versions a.id a.image)

-- The endpoints that run the image of the goal, or those that do not.
unfoldable pub side :
    Map String → (image : String) → (on_target : Bool) → List Endpoint → List Endpoint
side versions image on_target [] = []
side versions image on_target (e ∷ es) =
    let rest = side versions image on_target es in
    let runs = version_of versions e.allocation == image in
    if (if on_target then runs else not runs) then e ∷ rest else rest

-- What `WeightEndpoints` does with the two sides, at a step.
unfoldable pub split_weights :
    Map String → (step : ℕ) → (target previous : List Endpoint) → List WeightedEndpoint
unfolding sort_weighted equal_each share_across
split_weights versions step [] previous = sort_weighted [] (equal_each versions previous)
split_weights versions step (t ∷ target) [] = sort_weighted [] (equal_each versions (t ∷ target))
split_weights versions step (t ∷ target) (p ∷ previous) =
    sort_weighted []
      (share_across versions (t ∷ target) step ++ share_across versions (p ∷ previous) (100 - step))

-- A step is a percentage, so that it is not negative.
abbrev pub percent : ℤ → ℕ
percent (pos n) = n
percent (negsuc _) = 0

-- `WeightEndpoints`; `none` stands for the panic of `EvaluateCanary`.
unfoldable pub weight_endpoints :
    Time → Goal → World → List Endpoint → Option (List WeightedEndpoint)
unfolding evaluate_canary versions_from side split_weights equal_each
weight_endpoints clock g w es =
    let versions = versions_from w.allocations.entries Map.empty in
    elim g.canary [
      | none ↦ some (equal_each versions es)
      | some c ↦ elim (evaluate_canary clock g w) [
        | none ↦ none
        | some state ↦ some (
            split_weights versions (percent state.step) (side versions g.workload.image true es)
              (side versions g.workload.image false es))
      ]
    ]
