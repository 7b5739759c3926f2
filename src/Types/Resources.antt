-- ===== src/Types/Resources.antt =====
-- control/types.go: Resources, the compute an allocation holds.
use a4s.Prelude.{Bool, ◌&&◌, ℤ, le_ℤ, eq_ℤ, add_int, sub_int}
use a4s.Types.Budget.{floor_zero}

pub record Resources : Type 0 where
  pub cpu_millis : ℤ
  pub memory_mb : ℤ

unfoldable pub add : Resources → Resources → Resources
add r other = record {
  cpu_millis = add_int r.cpu_millis other.cpu_millis;
  memory_mb = add_int r.memory_mb other.memory_mb;
}

unfoldable pub subtract : Resources → Resources → Resources
subtract r other = record {
  cpu_millis = floor_zero (sub_int r.cpu_millis other.cpu_millis);
  memory_mb = floor_zero (sub_int r.memory_mb other.memory_mb);
}

unfoldable pub fits : Resources → Resources → Bool
fits r capacity = le_ℤ r.cpu_millis capacity.cpu_millis && le_ℤ r.memory_mb capacity.memory_mb

-- `==` on the struct.
unfoldable pub equal : Resources → Resources → Bool
equal a b = eq_ℤ a.cpu_millis b.cpu_millis && eq_ℤ a.memory_mb b.memory_mb
