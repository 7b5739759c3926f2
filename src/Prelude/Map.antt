-- ===== src/Prelude/Map.antt =====
-- Go's `map[string]V`. Whoever does not range over a map has the laws below; a `range` runs
-- through `entries`.
pub mod Keys
use Prim.Native.Nat.{ℕ, suc, ◌+◌}
use Prim.Native.String.{String}
use mathlib.Core.Bool.{Bool, true, ◌&&◌}
use text.Mathlib.Text.{◌==◌}
use text.Mathlib.TextEquality.{eq_iff}
use mathlib.Core.Path.{◌≡◌, refl}
use mathlib.Core.Option.{Option, none, some}
use mathlib.Core.List.{List, [], ◌∷◌}
use native.Mathlib.Omega.{arith}
use a4s.Prelude.Tests.{if◌then◌else◌}

pub record Map {ℓ} (V : Type ℓ) : Type ℓ where
  pub entries : List (String × V)

-- 1 for a value that passes a test.
abbrev pub one_if {ℓ} : {V : Type ℓ} → (V → Bool) → Option V → ℕ
one_if p none = 0
one_if p (some v) = if p v then 1 else 0

module _ {ℓ} {V : Type ℓ} where
  find : List (String × V) → String → Option V
  find [] key = none
  find ((name, value) ∷ rest) key =
      let later = find rest key in if name == key then some value else later

  -- A key that is there is written in place; a new one goes to the end.
  write : List (String × V) → String → V → List (String × V)
  write [] key new = (key, new) ∷ []
  write ((name, old) ∷ rest) key new =
      let later = write rest key new in
      if name == key then (key, new) ∷ rest else (name, old) ∷ later

  without : String → List (String × V) → List (String × V)
  without k [] = []
  without k ((j, v) ∷ m) = let rest = without k m in if j == k then rest else (j, v) ∷ rest

  unfoldable pub empty : Map V
  empty = record { entries = [] }

  unfoldable pub get : Map V → String → Option V
  unfolding find
  get m k = find m.entries k

  unfoldable pub put : Map V → String → V → Map V
  unfolding write
  put m k v = record { entries = write m.entries k v }

  unfoldable pub delete : Map V → String → Map V
  unfolding without
  delete m k = record { entries = without k m.entries }

  -- The number of values that pass a test: a `range` that counts.
  unfoldable pub count_values : (V → Bool) → List (String × V) → ℕ
  count_values p [] = 0
  count_values p ((_, v) ∷ m) = let rest = count_values p m in if p v then suc rest else rest

  unfoldable pub count : (V → Bool) → Map V → ℕ
  unfolding count_values
  count p m = count_values p m.entries

  count_values-write :
      (p : V → Bool) (k : String) (x : V) (m : List (String × V))
      → count_values p (write m k x) + one_if p (find m k) ≡ count_values p m + one_if p (some x)
  unfolding count_values write find
  count_values-write p k x [] = ground arith
  count_values-write p k x ((j, v) ∷ m) = ground (arith, eq_iff j k, count_values-write p k x m)

  -- Writing a key changes the count by the new value and by the one that it replaces.
  pub count-put :
      (p : V → Bool) (m : Map V) (k : String) (x : V)
      → count p (put m k x) + one_if p (get m k) ≡ count p m + one_if p (some x)
  unfolding count put get
  count-put p m k x = count_values-write p k x m.entries

  count_values-ext :
      (p q : V → Bool) (m : List (String × V))
      → ((v : V) → p v ≡ q v)
      → count_values p m ≡ count_values q m
  unfolding count_values
  count_values-ext p q [] h = refl
  count_values-ext p q ((j, v) ∷ m) h = ground (arith, h v, count_values-ext p q m h)

  pub count-ext : (p q : V → Bool) (m : Map V) → ((v : V) → p v ≡ q v) → count p m ≡ count q m
  unfolding count
  count-ext p q m h = count_values-ext p q m.entries h

  all_entries : (V → Bool) → List (String × V) → Bool
  all_entries p [] = true
  all_entries p ((_, v) ∷ m) = p v && all_entries p m

  unfoldable pub all_values : (V → Bool) → Map V → Bool
  unfolding all_entries
  all_values p m = all_entries p m.entries

  find-all_entries :
      (p : V → Bool) (m : List (String × V)) (k : String) (v : V)
      → all_entries p m ≡ true
      → find m k ≡ some v
      → p v ≡ true
  unfolding all_entries find
  find-all_entries p [] k v a h = cc
  find-all_entries p ((j, x) ∷ m) k v a h = ground (arith, find-all_entries p m k v)

  pub get-all_values :
      (p : V → Bool) (m : Map V) (k : String) (v : V)
      → all_values p m ≡ true
      → get m k ≡ some v
      → p v ≡ true
  unfolding all_values get
  get-all_values p m k v a h = find-all_entries p m.entries k v a h

  find-write :
      (entries : List (String × V)) (key : String) (new : V) (other : String)
      → find (write entries key new) other ≡ (if key == other then some new else find entries other)
  unfolding write find
  find-write [] key new other = refl
  find-write ((name, old) ∷ rest) key new other =
      let later = find-write rest key new other in
      ground (arith, later, eq_iff name key, eq_iff name other, eq_iff key other)

  find-without :
      (k j : String) (m : List (String × V))
      → find (without k m) j ≡ (if k == j then none else find m j)
  unfolding find without
  find-without k j [] = ground arith
  find-without k j ((i, v) ∷ m) =
      ground (arith, find-without k j m, eq_iff i k, eq_iff i j, eq_iff k j)

  pub get-put :
      (m : Map V) (k j : String) (v : V) → get (put m k v) j ≡ (if k == j then some v else get m j)
  unfolding get put
  get-put m k j v = find-write m.entries k v j

  pub get-delete :
      (m : Map V) (k j : String) → get (delete m k) j ≡ (if k == j then none else get m j)
  unfolding get delete
  get-delete m k j = find-without k j m.entries

pub get-empty {ℓ} : {V : Type ℓ} (k : String) → get (empty {V = V}) k ≡ none
unfolding get empty find
get-empty k = refl

pub ruleset map_laws = (get-empty, get-put, get-delete)
