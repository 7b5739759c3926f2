-- ===== src/Types/Budget.antt =====
-- control/types.go: Budget, the spend ceilings of an agent workload.
use a4s.Prelude.{Bool, ◌&&◌, ◌||◌, if◌then◌else◌, ℤ, pos, le_ℤ, lt_ℤ, eq_ℤ, add_int, sub_int}

pub record Budget : Type 0 where
  pub tokens : ℤ
  pub cost_millis : ℤ
  pub wall_seconds : ℤ
  pub tool_calls : ℤ

abbrev pub zero_budget : Budget
zero_budget = record {
  tokens = pos 0;
  cost_millis = pos 0;
  wall_seconds = pos 0;
  tool_calls = pos 0;
}

unfoldable pub fits : Budget → Budget → Bool
fits b ceiling =
    le_ℤ b.tokens ceiling.tokens
    && le_ℤ b.cost_millis ceiling.cost_millis
    && le_ℤ b.wall_seconds ceiling.wall_seconds
    && le_ℤ b.tool_calls ceiling.tool_calls

unfoldable pub exhausts : Budget → Budget → Bool
exhausts b ceiling =
    le_ℤ ceiling.tokens b.tokens
    || le_ℤ ceiling.cost_millis b.cost_millis
    || le_ℤ ceiling.wall_seconds b.wall_seconds
    || le_ℤ ceiling.tool_calls b.tool_calls

unfoldable pub add : Budget → Budget → Budget
add b other = record {
  tokens = add_int b.tokens other.tokens;
  cost_millis = add_int b.cost_millis other.cost_millis;
  wall_seconds = add_int b.wall_seconds other.wall_seconds;
  tool_calls = add_int b.tool_calls other.tool_calls;
}

-- `if x < 0 { x = 0 }`
abbrev pub floor_zero : ℤ → ℤ
floor_zero x = if lt_ℤ x (pos 0) then pos 0 else x

unfoldable pub subtract : Budget → Budget → Budget
subtract b other = record {
  tokens = floor_zero (sub_int b.tokens other.tokens);
  cost_millis = floor_zero (sub_int b.cost_millis other.cost_millis);
  wall_seconds = floor_zero (sub_int b.wall_seconds other.wall_seconds);
  tool_calls = floor_zero (sub_int b.tool_calls other.tool_calls);
}

-- `==` on the struct.
unfoldable pub equal : Budget → Budget → Bool
equal a b =
    eq_ℤ a.tokens b.tokens
    && eq_ℤ a.cost_millis b.cost_millis
    && eq_ℤ a.wall_seconds b.wall_seconds
    && eq_ℤ a.tool_calls b.tool_calls

unfoldable pub is_zero : Budget → Bool
unfolding equal
is_zero b = equal b zero_budget
