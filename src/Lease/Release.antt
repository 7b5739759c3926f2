-- ===== src/Lease/Release.antt =====
-- control/lease.go: what is left after `Release`.
use a4s.Prelude.{
  ◌≡◌, refl, sym, ◌∙◌, ap, true, false, none, some, List, [], ◌∷◌, String, ◌==◌, arith, Bool-cases,
  inl, inr, some-injective, none-some, Option, Bool, eq_iff, if_intro, if◌then◌else◌,
}
use a4s.Prelude.Map
use a4s.Prelude.Map.{Map, get-delete}
use a4s.Prelude.Map.Keys.{is_distinct, is_distinct-delete}
use a4s.Lease.{Lease, LeaseManager, release, drop_leases}

delete-none :
    (leases : Map Lease) (j t : String)
    → Map.get leases t ≡ none
    → Map.get (Map.delete leases j) t ≡ none
delete-none leases j t h = get-delete leases j t ∙ ground arith

delete-some :
    (leases : Map Lease) (j t : String) (l : Lease)
    → Map.get (Map.delete leases j) t ≡ some l
    → Map.get leases t ≡ some l
delete-some leases j t l h = let now = sym (get-delete leases j t) ∙ h in ground (arith, now)

delete-same :
    (leases : Map Lease) (j t : String) → (j == t) ≡ true → Map.get (Map.delete leases j) t ≡ none
delete-same leases j t h = get-delete leases j t ∙ rw h refl

drop_leases-none :
    (id : String) (es : List (String × Lease)) (leases : Map Lease) (t : String)
    → Map.get leases t ≡ none
    → Map.get (drop_leases id es leases) t ≡ none
unfolding drop_leases
drop_leases-none id [] leases t h = h
drop_leases-none id ((j, x) ∷ rest) leases t h = elim (Bool-cases (x.id == id)) [
  | inl gone ↦ rw gone (drop_leases-none id rest (Map.delete leases j) t (delete-none leases j t h))
  | inr left ↦ rw left (drop_leases-none id rest leases t h)
]

drop_leases-some :
    (id : String) (es : List (String × Lease)) (leases : Map Lease) (t : String) (l : Lease)
    → Map.get (drop_leases id es leases) t ≡ some l
    → Map.get leases t ≡ some l
unfolding drop_leases
drop_leases-some id [] leases t l h = h
drop_leases-some id ((j, x) ∷ rest) leases t l h = elim (Bool-cases (x.id == id)) [
  | inl gone ↦
      delete-some leases j t l (drop_leases-some id rest (Map.delete leases j) t l (rw gone at h))
  | inr left ↦ drop_leases-some id rest leases t l (rw left at h)
]

drop_leases-here :
    (id j : String) (x : Lease) (rest : List (String × Lease)) (leases : Map Lease) (t : String)
    → (j == t) ≡ true
    → (x.id == id) ≡ true
    → Map.get (drop_leases id ((j, x) ∷ rest) leases) t ≡ none
unfolding drop_leases
drop_leases-here id j x rest leases t same gone =
    rw gone (drop_leases-none id rest (Map.delete leases j) t (delete-same leases j t same))

drop_leases-frees :
    (id : String) (es : List (String × Lease)) (leases : Map Lease) (t : String) (l : Lease)
    → Map.get (record { entries = es }) t ≡ some l
    → (l.id == id) ≡ true
    → Map.get (drop_leases id es leases) t ≡ none
unfolding drop_leases Map.get
drop_leases-frees id [] leases t l h k = cc
drop_leases-frees id ((j, x) ∷ rest) leases t l h k = elim (Bool-cases (j == t)) [
  | inl same ↦
      let is = some-injective (rw same at h) in
      let gone = ap (λ y. y.id == id) is ∙ k in drop_leases-here id j x rest leases t same gone
  | inr other ↦ drop_leases-frees id rest _ t l (rw other at h) k
]

-- After a release no lease with that id is left, and every lease that is left was there before.
pub release-frees :
    (m : LeaseManager) (id t : String) (l : Lease)
    → Map.get (release m id).leases t ≡ some l
    → (Map.get m.leases t ≡ some l) × ((l.id == id) ≡ false)
unfolding release
release-frees m id t l h =
    let before = drop_leases-some id m.leases.entries m.leases t l h in
    (
      before,
      (elim (Bool-cases (l.id == id)) [
        | inl gone ↦
            absurd
              (none-some (sym (drop_leases-frees id m.leases.entries m.leases t l before gone) ∙ h))
        | inr left ↦ left
      ]),
    )

-- Whether a lease is there and has an id.
abbrev pub has_id : String → Option Lease → Bool
has_id id none = false
has_id id (some l) = l.id == id

delete-other :
    (leases : Map Lease) (j t : String)
    → (j == t) ≡ false
    → Map.get (Map.delete leases j) t ≡ Map.get leases t
delete-other leases j t h = get-delete leases j t ∙ rw h refl

drop_leases-left :
    (id j : String) (x : Lease) (rest : List (String × Lease)) (leases : Map Lease)
    → (x.id == id) ≡ false
    → drop_leases id ((j, x) ∷ rest) leases ≡ drop_leases id rest leases
unfolding drop_leases
drop_leases-left id j x rest leases h = rw h refl

drop_leases-gone :
    (id j : String) (x : Lease) (rest : List (String × Lease)) (leases : Map Lease)
    → (x.id == id) ≡ true
    → drop_leases id ((j, x) ∷ rest) leases ≡ drop_leases id rest (Map.delete leases j)
unfolding drop_leases
drop_leases-gone id j x rest leases h = rw h refl

drop_leases-keeps :
    (id : String) (es : List (String × Lease)) (leases : Map Lease) (t : String)
    → is_distinct (record { entries = es }) ≡ true
    → has_id id (Map.get (record { entries = es }) t) ≡ false
    → Map.get (drop_leases id es leases) t ≡ Map.get leases t
unfolding drop_leases Map.get is_distinct
drop_leases-keeps id [] leases t d h = refl
drop_leases-keeps id ((j, x) ∷ rest) leases t d h = elim (Bool-cases (j == t)) [
  | inl same ↦
      let left : (x.id == id) ≡ false = rw same at h in
      let absent : Map.get (record { entries = rest }) t ≡ none =
        ground (arith, d, same, eq_iff j t) in
      ap (λ m. Map.get m t) (drop_leases-left id j x rest leases left)
      ∙ drop_leases-keeps id rest leases t (ground (arith, d)) (ap (has_id id) absent)
  | inr other ↦ elim (Bool-cases (x.id == id)) [
    | inl gone ↦
        ap (λ m. Map.get m t) (drop_leases-gone id j x rest leases gone)
        ∙ drop_leases-keeps id rest (Map.delete leases j) t (ground (arith, d)) (rw other at h)
        ∙ delete-other leases j t other
    | inr left ↦
        ap (λ m. Map.get m t) (drop_leases-left id j x rest leases left)
        ∙ drop_leases-keeps id rest leases t (ground (arith, d)) (rw other at h)
  ]
]

-- A release leaves every lease with another id.
pub release-keeps :
    (m : LeaseManager) (id t : String) (l : Lease)
    → is_distinct m.leases ≡ true
    → Map.get m.leases t ≡ some l
    → (l.id == id) ≡ false
    → Map.get (release m id).leases t ≡ some l
unfolding release
release-keeps m id t l d held other =
    drop_leases-keeps id m.leases.entries m.leases t d (ap (has_id id) held ∙ other) ∙ held

drop_leases-IsDistinct :
    (id : String) (es : List (String × Lease)) (leases : Map Lease)
    → is_distinct leases ≡ true
    → is_distinct (drop_leases id es leases) ≡ true
unfolding drop_leases
drop_leases-IsDistinct id [] leases d = d
drop_leases-IsDistinct id ((j, x) ∷ rest) leases d =
    drop_leases-IsDistinct id rest (if x.id == id then Map.delete leases j else leases) (
      if_intro {A = Map Lease} (λ m. is_distinct m ≡ true) (x.id == id)
        (is_distinct-delete leases j d) d)

pub release-IsDistinct :
    (m : LeaseManager) (id : String)
    → is_distinct m.leases ≡ true
    → is_distinct (release m id).leases ≡ true
unfolding release
release-IsDistinct m id d = drop_leases-IsDistinct id m.leases.entries m.leases d
