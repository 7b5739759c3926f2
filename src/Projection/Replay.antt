-- ===== src/Projection/Replay.antt =====
-- control/projection.go: what a log of evidence leads to, whatever the evidence is.
use a4s.Prelude.{
  some-injective, ℕ, suc, ◌+◌, ◌<◌, ◌≡◌, ◌⊎◌, subst, ap, refl, sym, ◌∙◌, none, some, String, ◌==◌,
  eq_iff, arith, uint64_mod, incr_uint64, inl, inr, Bool-cases, List, [], ◌∷◌, ok, >>=-eq-ok,
  ok-injective,
}
use a4s.Prelude.Map
use a4s.Prelude.Map.{get-put, get-empty}
use a4s.Types.World.{World, Volume}
use a4s.Types.Evidence.{Evidence}
use a4s.Projection.{project, replay}
use a4s.Projection.Volumes.{take_volume}
use a4s.Projection.Effect.{
  Effect, elsewhere, creates, updates, removes, adds, alters, attaches, detaches, VolumeStep,
}
use a4s.Projection.Refines.{project-Effect}
use a4s.Projection.Fencing.{Fenced, Unsaturated, Effect-Fenced}

abbrev pub count_evidence : List Evidence → ℕ
count_evidence [] = 0
count_evidence (_ ∷ es) = suc (count_evidence es)

-- Room for `k` more generations of every volume.
pub record Bounded (k : ℕ) (w : World) : Type 0 where
  pub small : k < uint64_mod
  pub room :
      (name : String) (v : Volume) → Map.get w.volumes name ≡ some v → v.generation + k < uint64_mod

-- The generation of a volume after evidence.
pub data Grows (w : World) (name : String) (v' : Volume) : Type 0 where
  fresh : Map.get w.volumes name ≡ none → v'.generation ≡ 0 → Grows w name v'
  grown :
      (v : Volume)
      → Map.get w.volumes name ≡ some v
      → (v'.generation ≡ v.generation) ⊎ (v'.generation ≡ incr_uint64 v.generation)
      → Grows w name v'

Grows-same :
    (w u : World) (name : String) (v' : Volume)
    → u.volumes ≡ w.volumes
    → Map.get u.volumes name ≡ some v'
    → Grows w name v'
Grows-same w u name v' q h = grown v' (rw q at h) (inl refl)

Grows-put :
    (w u : World) (n name : String) (v x v' : Volume)
    → Map.get w.volumes n ≡ some v
    → u.volumes ≡ Map.put w.volumes n x
    → (x.generation ≡ v.generation) ⊎ (x.generation ≡ incr_uint64 v.generation)
    → Map.get u.volumes name ≡ some v'
    → Grows w name v'
Grows-put w u n name v x v' known q step h =
    let e = sym (get-put w.volumes n name x) ∙ sym (ap (λ m. Map.get m name) q) ∙ h in
    elim (Bool-cases (n == name)) [
      | inl same ↦ grown v (ap (Map.get w.volumes) (sym ((eq_iff n name).0 same)) ∙ known) (
          subst (λ y. (y.generation ≡ v.generation) ⊎ (y.generation ≡ incr_uint64 v.generation))
            (some-injective (rw same at e)) step)
      | inr other ↦ grown v' (rw other at e) (inl refl)
    ]

Grows-add :
    (w u : World) (n name : String) (x v' : Volume)
    → Map.get w.volumes n ≡ none
    → x.generation ≡ 0
    → u.volumes ≡ Map.put w.volumes n x
    → Map.get u.volumes name ≡ some v'
    → Grows w name v'
Grows-add w u n name x v' new zero' q h =
    let e = sym (get-put w.volumes n name x) ∙ sym (ap (λ m. Map.get m name) q) ∙ h in
    elim (Bool-cases (n == name)) [
      | inl same ↦
          fresh (ap (Map.get w.volumes) (sym ((eq_iff n name).0 same)) ∙ new)
            (ap (λ y. y.generation) (sym (some-injective (rw same at e))) ∙ zero')
      | inr other ↦ grown v' (rw other at e) (inl refl)
    ]

VolumeStep-generation :
    (v x : Volume)
    → VolumeStep v x
    → (x.generation ≡ v.generation) ⊎ (x.generation ≡ incr_uint64 v.generation)
VolumeStep-generation v x (VolumeStep.stays _ _ same _) = inl same
VolumeStep-generation v x (VolumeStep.moves _ _ _ _ _ next _) = inr next

take_volume-generation :
    (v : Volume) (owner : String)
    → ((take_volume v owner).generation ≡ v.generation)
      ⊎ ((take_volume v owner).generation ≡ incr_uint64 v.generation)
unfolding take_volume
take_volume-generation v owner = elim (Bool-cases (v.owner == owner)) [
  | inl mine ↦ rw mine (inl refl)
  | inr new ↦ rw new (inr refl)
]

Effect-Grows :
    {w u : World}
    → Effect w u
    → (name : String) (v' : Volume) → Map.get u.volumes name ≡ some v'
    → Grows w name v'
Effect-Grows {w} {u} (elsewhere p q) name v' h = Grows-same w u name v' q h
Effect-Grows {w} {u} (creates _ _ _ _ _ p q) name v' h = Grows-same w u name v' q h
Effect-Grows {w} {u} (updates _ _ _ _ _ p q) name v' h = Grows-same w u name v' q h
Effect-Grows {w} {u} (removes _ p q) name v' h = Grows-same w u name v' q h
Effect-Grows {w} {u} (adds n x new _ g p q) name v' h = Grows-add w u n name x v' new g q h
Effect-Grows {w} {u} (alters n v x known step p q) name v' h =
    Grows-put w u n name v x v' known q (VolumeStep-generation v x step) h
Effect-Grows {w} {u} (attaches n owner v a known _ _ p q) name v' h =
    Grows-put w u n name v (take_volume v owner) v' known q (take_volume-generation v owner) h
Effect-Grows {w} {u} (detaches n v known p q) name v' h =
    Grows-put w u n name v _ v' known q (inr refl) h

pub Effect-Bounded : {w u : World} (k : ℕ) → Bounded (suc k) w → Effect w u → Bounded k u
Effect-Bounded {w} {u} k b e = record {
  small = ground (arith, b.small);
  room = λ name v' h. elim (Effect-Grows e name v' h) [
    | fresh _ z ↦ ground (arith, b.small)
    | grown v known (inl same) ↦ ground (arith, b.room name v known)
    | grown v known (inr next) ↦ ground (arith, b.room name v known)
  ];
}

pub Bounded-Unsaturated : {w : World} (k : ℕ) → Bounded (suc k) w → Unsaturated w
Bounded-Unsaturated k b = record { room = λ name v known. ground (arith, b.room name v known) }

-- A log that is shorter than the room keeps the single-writer rule.
pub replay-Fenced :
    (es : List Evidence) (w u : World)
    → Bounded (count_evidence es) w
    → Fenced w
    → replay w es ≡ ok u
    → Fenced u
unfolding replay
replay-Fenced [] w u b f h = subst Fenced (ok-injective h) f
replay-Fenced (e ∷ es) w u b f h =
    let (next, step, rest) = >>=-eq-ok (project w e) _ h in
    let x = project-Effect w e step in
    replay-Fenced es next u (Effect-Bounded (count_evidence es) b x)
      (Effect-Fenced (Bounded-Unsaturated (count_evidence es) b) f x) rest
