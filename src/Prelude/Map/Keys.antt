-- ===== src/Prelude/Map/Keys.antt =====
-- Go's `map[string]V`: the keys of a map, and what a `range` over it counts.
use Prim.Native.String.{String}
use mathlib.Core.Bool.{Bool, true, false, not, ◌&&◌}
use mathlib.Core.Logic.{◌⊎◌, inl, inr}
use text.Mathlib.Text.{◌==◌}
use text.Mathlib.TextEquality.{eq_iff}
use text.Mathlib.TextPositions.{eq_refl}
use mathlib.Core.Path.{◌≡◌, refl, sym, ap, subst, ◌∙◌}
use mathlib.Core.Option.{Option, none, some, map}
use mathlib.Core.List.{List, [], ◌∷◌}
use native.Mathlib.Omega.{arith}
use a4s.Prelude.Tests.{if◌then◌else◌, is_some, Bool-cases, some-injective, none-some}
use a4s.Prelude.Map.{
  Map, find, write, without, get, put, delete, one_if, count, count_values, find-write,
  find-without, get-put, get-delete,
}

and_left : {a : Bool} (b : Bool) → (a && b) ≡ true → a ≡ true
and_left b h = ground arith

not_some {ℓ} : {W : Type ℓ} (o : Option W) → not (is_some o) ≡ true → o ≡ none
not_some none h = refl
not_some (some x) h = cc

and_right : (a : Bool) {b : Bool} → (a && b) ≡ true → b ≡ true
and_right true h = h
and_right false h = cc

module _ {ℓ} {V : Type ℓ} where
  distinct : List (String × V) → Bool
  unfolding find
  distinct [] = true
  distinct ((j, _) ∷ m) = not (is_some (find m j)) && distinct m

  -- Every key stands once.
  unfoldable pub is_distinct : Map V → Bool
  unfolding distinct
  is_distinct m = distinct m.entries

  distinct-write :
      (m : List (String × V)) (k : String) (v : V)
      → distinct m ≡ true
      → distinct (write m k v) ≡ true
  unfolding distinct write
  distinct-write [] k v h = refl
  distinct-write ((j, x) ∷ m) k v h =
      ground (arith, eq_iff j k, eq_iff k j, distinct-write m k v, find-write m k v j)

  distinct-without :
      (m : List (String × V)) (k : String) → distinct m ≡ true → distinct (without k m) ≡ true
  unfolding distinct without
  distinct-without [] k h = refl
  distinct-without ((j, x) ∷ m) k h =
      ground (arith, eq_iff k j, distinct-without m k, find-without k j m)

  pub is_distinct-put :
      (m : Map V) (k : String) (v : V) → is_distinct m ≡ true → is_distinct (put m k v) ≡ true
  unfolding is_distinct put
  is_distinct-put m k v h = distinct-write m.entries k v h

  pub is_distinct-delete :
      (m : Map V) (k : String) → is_distinct m ≡ true → is_distinct (delete m k) ≡ true
  unfolding is_distinct delete
  is_distinct-delete m k h = distinct-without m.entries k h

  map_entries : (V → V) → List (String × V) → List (String × V)
  map_entries f [] = []
  map_entries f ((j, v) ∷ m) = (j, f v) ∷ map_entries f m

  -- A `range` that writes through every value.
  unfoldable pub map_values : (V → V) → Map V → Map V
  unfolding map_entries
  map_values f m = record { entries = map_entries f m.entries }

  find-map_entries :
      (f : V → V) (m : List (String × V)) (k : String) → find (map_entries f m) k ≡ map f (find m k)
  unfolding map_entries find
  find-map_entries f [] k = refl
  find-map_entries f ((j, v) ∷ m) k = elim (Bool-cases (j == k)) [
    | inl e ↦ rw e refl
    | inr e ↦ rw e (find-map_entries f m k)
  ]

  pub get-map_values :
      (f : V → V) (m : Map V) (k : String) → get (map_values f m) k ≡ map f (get m k)
  unfolding map_values get
  get-map_values f m k = find-map_entries f m.entries k

  distinct-map_entries :
      (f : V → V) (m : List (String × V)) → distinct (map_entries f m) ≡ distinct m
  unfolding distinct map_entries
  distinct-map_entries f [] = refl
  distinct-map_entries f ((j, v) ∷ m) =
      rw (find-map_entries f m j, distinct-map_entries f m) (is_some_of f (find m j) (distinct m))
    where
      is_some_of :
          (g : V → V) (o : Option V) (b : Bool)
          → (not (is_some (map g o)) && b) ≡ (not (is_some o) && b)
      is_some_of g none b = refl
      is_some_of g (some x) b = refl

  pub is_distinct-map_values :
      (f : V → V) (m : Map V) → is_distinct (map_values f m) ≡ is_distinct m
  unfolding is_distinct map_values
  is_distinct-map_values f m = distinct-map_entries f m.entries

  count_values-zero :
      (m : List (String × V)) (p : V → Bool) (k : String)
      → distinct m ≡ true
      → count_values p m ≡ 0
      → one_if p (find m k) ≡ 0
  unfolding count_values distinct find
  count_values-zero [] p k d c = refl
  count_values-zero ((j, v) ∷ m) p k d c = elim (Bool-cases (p v)) [
    | inl e ↦ absurd (ground (arith, rw e at c))
    | inr e ↦
        let rest = count_values-zero m p k (and_right (not (is_some (find m j))) d) (rw e at c) in
        elim (Bool-cases (j == k)) [ inl i ↦ rw (i, e) refl | inr i ↦ rw i rest ]
  ]

  -- A `range` that counts nothing passes over every key.
  pub count-zero :
      (p : V → Bool) (m : Map V) (k : String)
      → is_distinct m ≡ true
      → count p m ≡ 0
      → one_if p (get m k) ≡ 0
  unfolding is_distinct count get
  count-zero p m k d c = count_values-zero m.entries p k d c

  fails_at : (p : V → Bool) (v : V) → one_if p (some v) ≡ 0 → p v ≡ false
  fails_at p v h = ground arith

  count_values-none :
      (m : List (String × V)) (p : V → Bool)
      → distinct m ≡ true
      → ((k : String) → one_if p (find m k) ≡ 0)
      → count_values p m ≡ 0
  unfolding count_values distinct find
  count_values-none [] p d h = refl
  count_values-none ((j, v) ∷ m) p d h =
      let fresh = not_some (find m j) (and_left (distinct m) d) in
      let this = fails_at p v (rw (eq_refl j) at (h j)) in
      let rest = count_values-none m p (and_right (not (is_some (find m j))) d) (λ k.
        elim (Bool-cases (j == k)) [
          | inl i ↦ rw (sym ((eq_iff j k).0 i), fresh) refl
          | inr i ↦ rw i at (h k)
        ]) in
      rw this rest

  -- A `range` that passes over every key counts nothing.
  pub count-none :
      (p : V → Bool) (m : Map V)
      → is_distinct m ≡ true
      → ((k : String) → one_if p (get m k) ≡ 0)
      → count p m ≡ 0
  unfolding is_distinct count get
  count-none p m d h = count_values-none m.entries p d h

  -- What a key holds after a write was written, or was there before.
  pub get-put-some :
      (m : Map V) (k j : String) (v u : V)
      → get (put m k v) j ≡ some u
      → ((k ≡ j) × (v ≡ u)) ⊎ ((get m j ≡ some u) × ((k == j) ≡ false))
  get-put-some m k j v u h =
      let after = sym (get-put m k j v) ∙ h in
      elim (Bool-cases (k == j)) [
        | inl e ↦ inl ((eq_iff k j).0 e, some-injective (rw e at after))
        | inr e ↦ inr (rw e at after, e)
      ]

  pub get-delete-some :
      (m : Map V) (k j : String) (u : V)
      → get (delete m k) j ≡ some u
      → (get m j ≡ some u) × ((k == j) ≡ false)
  get-delete-some m k j u h =
      let after = sym (get-delete m k j) ∙ h in
      elim (Bool-cases (k == j)) [
        | inl e ↦ absurd (none-some (rw e at after))
        | inr e ↦ (rw e at after, e)
      ]

  map-some :
      (f : V → V) (o : Option V) (u : V) → map f o ≡ some u → (t : V) × (o ≡ some t) × (f t ≡ u)
  map-some f none u h = cc
  map-some f (some t) u h = (t, refl, some-injective h)

  pub get-map_values-some :
      (f : V → V) (m : Map V) (k : String) (u : V)
      → get (map_values f m) k ≡ some u
      → (t : V) × (get m k ≡ some t) × (f t ≡ u)
  get-map_values-some f m k u h = map-some f (get m k) u (sym (get-map_values f m k) ∙ h)

  is_some-map : (f : V → V) (o : Option V) → is_some o ≡ is_some (map f o)
  is_some-map f none = refl
  is_some-map f (some t) = refl

  pub is_some-map_values :
      (f : V → V) (m : Map V) (k : String) → is_some (get m k) ≡ is_some (get (map_values f m) k)
  is_some-map_values f m k = rw (get-map_values f m k) (is_some-map f (get m k))

  keep_entries : (V → Bool) → List (String × V) → List (String × V)
  keep_entries p [] = []
  keep_entries p ((j, v) ∷ m) = let rest = keep_entries p m in if p v then rest else (j, v) ∷ rest

  -- A `range` that deletes the keys of the values that pass a test.
  unfoldable pub delete_where : (V → Bool) → Map V → Map V
  unfolding keep_entries
  delete_where p m = record { entries = keep_entries p m.entries }

  find-keep_entries :
      (m : List (String × V)) (p : V → Bool) (k : String) (v : V)
      → find (keep_entries p m) k ≡ some v
      → p v ≡ false
  unfolding find keep_entries
  find-keep_entries [] p k v h = cc
  find-keep_entries ((j, x) ∷ m) p k v h = elim (Bool-cases (p x)) [
    | inl e ↦ find-keep_entries m p k v (rw e at h)
    | inr e ↦ elim (Bool-cases (j == k)) [
      | inl i ↦ subst (λ y. p y ≡ false) (some-injective (rw (e, i) at h)) e
      | inr i ↦ find-keep_entries m p k v (rw (e, i) at h)
    ]
  ]

  pub get-delete_where :
      (p : V → Bool) (m : Map V) (k : String) (v : V)
      → get (delete_where p m) k ≡ some v
      → p v ≡ false
  unfolding delete_where get
  get-delete_where p m k v h = find-keep_entries m.entries p k v h

  find-kept :
      (m : List (String × V)) (p : V → Bool) (k : String) (v : V)
      → find m k ≡ some v
      → p v ≡ false
      → find (keep_entries p m) k ≡ some v
  unfolding find keep_entries
  find-kept [] p k v h n = cc
  find-kept ((j, x) ∷ m) p k v h n = elim (Bool-cases (j == k)) [
    | inl i ↦ let same = some-injective (rw i at h) in rw (ap p same ∙ n, i) (ap some same)
    | inr i ↦ elim (Bool-cases (p x)) [
      | inl e ↦ rw e (find-kept m p k v (rw i at h) n)
      | inr e ↦ rw (e, i) (find-kept m p k v (rw i at h) n)
    ]
  ]

  pub get-kept :
      (p : V → Bool) (m : Map V) (k : String) (v : V)
      → get m k ≡ some v
      → p v ≡ false
      → get (delete_where p m) k ≡ some v
  unfolding delete_where get
  get-kept p m k v h n = find-kept m.entries p k v h n
