-- ===== src/Node/Agents/Limits.antt =====
-- node/agent.go: what bounds the spending and the tool calls of an instance.
use a4s.Prelude.{
  ℕ, ◌+◌, ◌≤◌, ◌<◌, ◌≡◌, refl, sym, ◌∙◌, ap, subst, Bool, true, false, ◌||◌, some, List, [], ◌∷◌,
  String, eq_refl, arith, ℤ, pos, add_int, add_int_exact, ◌+ℤ◌, InInt64, int64_half, int_laws, le_ℤ,
  Result, ok, err, ◌>>=◌, Bool-cases, inl, inr, some-injective,
}
use a4s.Prelude.Map
use a4s.Prelude.Map.{Map, get-put, get-delete}
use a4s.Types.Budget
use a4s.Types.Budget.{Budget, zero_budget, floor_zero}
use a4s.Node.Agents.{Agents, Meter, may_claim, budget_exhausted}
use a4s.Node.Agents.Meters.{
  spend, charged, clamp_budget, authorize_tool_call, allows, refused, called,
}

abbrev pub accepted : Result (Unit {0}) → ℕ
accepted (ok _) = 1
accepted (err _) = 0

-- How many of a list of tool calls are let through.
unfoldable pub call_each : Agents → String → List (String × String) → Agents × ℕ
unfolding authorize_tool_call
call_each a allocation [] = (a, 0)
call_each a allocation ((tool, scope) ∷ calls) =
    let (b, answer) = authorize_tool_call a allocation tool scope in
    let (c, later) = call_each b allocation calls in (c, accepted answer + later)

-- A meter with a ceiling of calls and the calls made.
abbrev pub Metered : Agents → String → (limit made : ℕ) → Type 0
Metered a allocation limit made =
    (m : Meter) × (Map.get a.meters allocation ≡ some m)
    × (m.budget.tool_calls ≡ pos limit)
    × (m.spent.tool_calls ≡ pos made)
    × (made ≤ limit)

not_exhausted-below :
    (m : Meter) (limit made : ℕ)
    → Budget.exhausts m.spent m.budget ≡ false
    → m.budget.tool_calls ≡ pos limit
    → m.spent.tool_calls ≡ pos made
    → made < limit
unfolding Budget.exhausts
not_exhausted-below m limit made h b s = ground arith

one_more : (made : ℕ) → made + 1 < int64_half → add_int (pos made) (pos 1) ≡ pos (made + 1)
unfolding ◌+ℤ◌
one_more made h = add_int_exact (pos made) (pos 1) (ground arith) ∙ ground arith

put_meter :
    (a : Agents) (allocation : String) (m : Meter)
    → Map.get (Map.put a.meters allocation m) allocation ≡ some m
put_meter a allocation m = get-put a.meters allocation allocation m ∙ rw (eq_refl allocation) refl

-- One call, and what is counted for it.
call-Metered :
    (a : Agents) (allocation tool scope : String) (limit made : ℕ)
    → limit < int64_half
    → Metered a allocation limit made
    → (extra : ℕ) × (accepted (authorize_tool_call a allocation tool scope).1 ≡ extra)
      × Metered (authorize_tool_call a allocation tool scope).0 allocation limit (made + extra)
unfolding authorize_tool_call
call-Metered a allocation tool scope limit made small (m, found, budget, spent, within) =
    elim (Bool-cases (Budget.exhausts m.spent m.budget)) [
      | inl e ↦
          rw (found, authorize_tool_call, e)
            (0, refl, (m, found, budget, spent ∙ ap pos (ground arith), ground arith))
      | inr e ↦ elim (Bool-cases (allows a allocation tool scope)) [
        | inl g ↦
            let below = not_exhausted-below m limit made e budget spent in
            rw (found, authorize_tool_call, e, g)
              (
                1,
                refl,
                (
                  called m,
                  put_meter a allocation (called m),
                  budget,
                  ap (λ z. add_int z (pos 1)) spent ∙ one_more made (omega arith),
                  omega arith,
                ),
              )
        | inr g ↦
            rw (found, authorize_tool_call, e, g)
              (
                0,
                refl,
                (
                  refused m,
                  put_meter a allocation (refused m),
                  budget,
                  spent ∙ ap pos (ground arith),
                  ground arith,
                ),
              )
      ]
    ]

-- An instance with a ceiling of n tool calls is let through at most n times, whatever it calls and
-- however often it tries.
pub call_each-bounded :
    (calls : List (String × String)) (a : Agents) (allocation : String) (limit made : ℕ)
    → limit < int64_half
    → Metered a allocation limit made
    → (call_each a allocation calls).1 + made ≤ limit
unfolding call_each
call_each-bounded [] a allocation limit made small (m, found, budget, spent, within) = omega arith
call_each-bounded ((tool, scope) ∷ calls) a allocation limit made small metered =
    let (extra, is, next) = call-Metered a allocation tool scope limit made small metered in
    omega (
      arith,
      is,
      call_each-bounded calls (authorize_tool_call a allocation tool scope).0 allocation limit
          (made + extra) small next,
    )

-- Reports whose totals fit in an `int64`, and tool calls, by one instance.
pub data Uses (allocation : String) (a : Agents) : Agents → Type 0 where
  start : Uses allocation a a
  spends :
      {b : Agents} (m : Meter) (delta : Budget)
      → Uses allocation a b
      → Map.get b.meters allocation ≡ some m
      → InInt64 (m.spent.tokens +ℤ floor_zero delta.tokens)
      → InInt64 (m.spent.cost_millis +ℤ floor_zero delta.cost_millis)
      → InInt64 (m.spent.wall_seconds +ℤ floor_zero delta.wall_seconds)
      → InInt64 (m.spent.tool_calls +ℤ floor_zero delta.tool_calls)
      → Uses allocation a (spend b allocation delta).0
  calls :
      {b : Agents} (tool scope : String)
      → Uses allocation a b
      → Uses allocation a (authorize_tool_call b allocation tool scope).0

add-floor_zero-grows :
    (x d : ℤ) → InInt64 (x +ℤ floor_zero d) → le_ℤ x (add_int x (floor_zero d)) ≡ true
unfolding ◌+ℤ◌
add-floor_zero-grows x d h = rw (add_int_exact x (floor_zero d) h) (grind int_laws)

still_over :
    (c x d : ℤ)
    → InInt64 (x +ℤ floor_zero d)
    → le_ℤ c x ≡ true
    → le_ℤ c (add_int x (floor_zero d)) ≡ true
still_over c x d h over = ground (arith, add-floor_zero-grows x d h)

charged-exhausts :
    (m : Meter) (delta : Budget)
    → InInt64 (m.spent.tokens +ℤ floor_zero delta.tokens)
    → InInt64 (m.spent.cost_millis +ℤ floor_zero delta.cost_millis)
    → InInt64 (m.spent.wall_seconds +ℤ floor_zero delta.wall_seconds)
    → InInt64 (m.spent.tool_calls +ℤ floor_zero delta.tool_calls)
    → Budget.exhausts m.spent m.budget ≡ true
    → Budget.exhausts (charged m delta).spent m.budget ≡ true
unfolding Budget.exhausts Budget.add clamp_budget
charged-exhausts m delta ht hc hw hn over =
    let t = still_over m.budget.tokens m.spent.tokens delta.tokens ht in
    let c = still_over m.budget.cost_millis m.spent.cost_millis delta.cost_millis hc in
    let w = still_over m.budget.wall_seconds m.spent.wall_seconds delta.wall_seconds hw in
    let n = still_over m.budget.tool_calls m.spent.tool_calls delta.tool_calls hn in
    or_keeps over t c w n
  where
    or_keeps :
        {p q r s p' q' r' s' : Bool}
        → (p || q || r || s) ≡ true
        → (p ≡ true → p' ≡ true)
        → (q ≡ true → q' ≡ true)
        → (r ≡ true → r' ≡ true)
        → (s ≡ true → s' ≡ true)
        → (p' || q' || r' || s') ≡ true
    or_keeps h a b c d = ground arith

-- An instance whose meter has run out.
abbrev pub SpentUp : Agents → String → Type 0
SpentUp a allocation =
    (m : Meter) × (Map.get a.meters allocation ≡ some m) × (Budget.exhausts m.spent m.budget ≡ true)

Uses-SpentUp :
    {allocation : String} {a b : Agents}
    → Uses allocation a b
    → SpentUp a allocation
    → SpentUp b allocation
unfolding spend authorize_tool_call
Uses-SpentUp start s = s
Uses-SpentUp {allocation} (spends {b = b} m delta u found ht hc hw hn) s =
    let (x, is, over) = Uses-SpentUp u s in
    let same = some-injective (sym found ∙ is) in
    rw (found, spend)
      (
        charged m delta,
        put_meter b allocation (charged m delta),
        charged-exhausts m delta ht hc hw hn
            (subst (λ y. Budget.exhausts y.spent y.budget ≡ true) (sym same) over),
      )
Uses-SpentUp {allocation} (calls {b = b} tool scope u) s =
    let (x, is, over) = Uses-SpentUp u s in rw (is, authorize_tool_call, over) (x, is, over)

-- The kill switch holds: once an instance has spent its ceiling, no report and no call that it makes
-- brings it back, as long as the totals fit in an `int64`. Every later tool call and every later
-- claim is refused.
pub Uses-refused :
    {allocation : String} {a b : Agents} (tool scope : String)
    → Uses allocation a b
    → SpentUp a allocation
    → (authorize_tool_call b allocation tool scope ≡ (b, err budget_exhausted))
      × (may_claim b allocation ≡ err budget_exhausted)
unfolding authorize_tool_call may_claim ◌>>=◌
Uses-refused {allocation} tool scope u s =
    let (x, is, over) = Uses-SpentUp u s in
    (rw (is, authorize_tool_call, over) refl, rw (is, ◌>>=◌, over) refl)
