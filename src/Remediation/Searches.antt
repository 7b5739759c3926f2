-- ===== src/Remediation/Searches.antt =====
-- control/remediation.go: what the searches for a candidate find.
use a4s.Prelude.{
  ◌≡◌, refl, sym, ◌∙◌, ap, subst, Bool, true, false, not, none, some, List, [], ◌∷◌, String, ◌==◌,
  eq_iff, eq_refl, arith, if◌then◌else◌, Bool-cases, inl, inr, is_some, true-false, some-injective,
}
use a4s.Prelude.Map
use a4s.Prelude.Map.{Map}
use a4s.Prelude.Map.Keys.{is_distinct}
use a4s.Kernel.Rules.{mem}
use a4s.Remediation.{least, keys_where, text_before}

least-step :
    (x y : String) (ys : List String)
    → least (x ∷ y ∷ ys) ≡ (if text_before (least (y ∷ ys)) x then least (y ∷ ys) else x)
unfolding least
least-step x y ys = refl

mem-later : (x k : String) (zs : List String) → mem k zs ≡ true → mem k (x ∷ zs) ≡ true
mem-later x k zs m = ground (arith, m)

mem-first : (x : String) (zs : List String) → mem x (x ∷ zs) ≡ true
mem-first x zs = rw (eq_refl x) refl

least-one : (x : String) → least (x ∷ []) ≡ x
unfolding least
least-one x = refl

least-mem : (x : String) (xs : List String) → mem (least (x ∷ xs)) (x ∷ xs) ≡ true
least-mem x [] = subst (λ k. mem k (x ∷ []) ≡ true) (sym (least-one x)) (mem-first x [])
least-mem x (y ∷ ys) =
    subst (λ k. mem k (x ∷ y ∷ ys) ≡ true) (sym (least-step x y ys))
      (chosen (text_before (least (y ∷ ys)) x)
        (mem-later x (least (y ∷ ys)) (y ∷ ys) (least-mem y ys)))
  where
    chosen :
        (b : Bool)
        → mem (least (y ∷ ys)) (x ∷ y ∷ ys) ≡ true
        → mem (if b then least (y ∷ ys) else x) (x ∷ y ∷ ys) ≡ true
    chosen true m = m
    chosen false m = mem-first x (y ∷ ys)

nothing_least : not (least [] == "") ≡ true → mem (least []) [] ≡ true
unfolding least
nothing_least h = absurd (true-false (sym h ∙ ap not (eq_refl "")))

least-found : (xs : List String) → not (least xs == "") ≡ true → mem (least xs) xs ≡ true
least-found [] h = nothing_least h
least-found (x ∷ xs) h = least-mem x xs

mem-find :
    {V : Type 0} (m : List (String × V)) (test : String → V → Bool) (k : String)
    → mem k (keys_where test m) ≡ true
    → is_some (Map.get (record { entries = m }) k) ≡ true
unfolding keys_where Map.get
mem-find [] test k h = h
mem-find ((j, x) ∷ m) test k h = ground (arith, eq_iff j k, eq_iff k j, mem-find m test k)

find-found :
    {V : Type 0} (m : List (String × V)) (test : String → V → Bool) (k : String)
    → is_distinct (record { entries = m }) ≡ true
    → mem k (keys_where test m) ≡ true
    → (v : V) × (Map.get (record { entries = m }) k ≡ some v) × (test k v ≡ true)
unfolding keys_where Map.get is_distinct
find-found {V} [] test k d h = absurd (true-false (sym h))
find-found {V} ((j, x) ∷ m) test k d h = elim (Bool-cases (j == k)) [
  | inl e ↦ (x, rw (e) refl, ground (arith, h, d, e, eq_iff j k, mem-find m test k))
  | inr e ↦ passed e (find-found m test k (ground (arith, d)) (ground (arith, h, e)))
]
  where
    passed :
        (j == k) ≡ false
        → (v : V) × (Map.get (record { entries = m }) k ≡ some v) × (test k v ≡ true)
        → (v : V) × (Map.get (record { entries = (j, x) ∷ m }) k ≡ some v) × (test k v ≡ true)
    passed e (v, at, t) = (v, rw (e) at, t)

pub least_where :
    {V : Type 0} (m : Map V) (test : String → V → Bool)
    → is_distinct m ≡ true
    → not (least (keys_where test m.entries) == "") ≡ true
    → (v : V) × (Map.get m (least (keys_where test m.entries)) ≡ some v)
      × (test (least (keys_where test m.entries)) v ≡ true)
least_where m test d h =
    find-found m.entries test (least (keys_where test m.entries)) d
      (least-found (keys_where test m.entries) h)

least-blank : (xs : List String) → (least xs == "") ≡ true → mem "" xs ≡ false → xs ≡ []
least-blank [] h out = refl
least-blank (x ∷ xs) h out =
    let blank : least (x ∷ xs) ≡ "" = (eq_iff (least (x ∷ xs)) "").0 h in
    absurd (true-false (sym (subst (λ k. mem k (x ∷ xs) ≡ true) blank (least-mem x xs)) ∙ out))

where-mem :
    {V : Type 0} (m : List (String × V)) (test : String → V → Bool) (k : String) (v : V)
    → Map.get (record { entries = m }) k ≡ some v
    → test k v ≡ true
    → mem k (keys_where test m) ≡ true
unfolding keys_where Map.get
where-mem {V} [] test k v h t = cc
where-mem {V} ((j, x) ∷ m) test k v h t = elim (Bool-cases (j == k)) [
  | inl e ↦
      let same : x ≡ v = some-injective (rw e at h) in
      let key : k ≡ j = sym ((eq_iff j k).0 e) in
      let here : test j x ≡ true = ap (test j) same ∙ subst (λ i. test i v ≡ true) key t in
      rw here (ground (arith, e))
  | inr e ↦ later (test j x) (where-mem m test k v (rw e at h) t)
]
  where
    later :
        (b : Bool)
        → mem k (keys_where test m) ≡ true
        → mem k (if b then j ∷ keys_where test m else keys_where test m) ≡ true
    later true r = ground (arith, r)
    later false r = r

-- When the first key that passes is blank, and no key is, nothing passes.
pub none_where :
    {V : Type 0} (m : Map V) (test : String → V → Bool)
    → (least (keys_where test m.entries) == "") ≡ true
    → Map.get m "" ≡ none
    → (k : String) (v : V) → Map.get m k ≡ some v
    → test k v ≡ true
    → ⊥
none_where m test h blank k v at t =
    let out : mem "" (keys_where test m.entries) ≡ false =
      elim (Bool-cases (mem "" (keys_where test m.entries))) [
        | inr e ↦ e
        | inl e ↦ absurd (true-false (sym (mem-find m.entries test "" e) ∙ ap is_some blank))
      ] in
    let empty = least-blank (keys_where test m.entries) h out in
    true-false (sym (where-mem m.entries test k v at t) ∙ ap (mem k) empty)
