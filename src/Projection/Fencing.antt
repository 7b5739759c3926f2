-- ===== src/Projection/Fencing.antt =====
-- The single-writer rule of control/projection.go: which allocation holds which generation of a
-- volume.
use a4s.Prelude.{
  ℕ, ◌+◌, ◌≤◌, ◌<◌, ◌≡◌, refl, sym, ◌∙◌, Option, none, some, true, ◌&&◌, String, ◌==◌, eq_iff,
  eq_refl, subst, arith, if◌then◌else◌, incr_uint64, uint64_mod, inl, inr, Bool-cases, Option-cases,
}
use a4s.Prelude.Map
use a4s.Prelude.Map.{get-put, get-delete, get-empty}
use a4s.Types.World.{World, Allocation, Volume}
use a4s.Projection.Volumes.{take_volume, drop_hold}
use a4s.Projection.Effect.{
  Effect, elsewhere, creates, updates, removes, adds, alters, attaches, detaches, VolumeStep,
}

abbrev held_by : Option Allocation → String → Option ℕ
held_by none name = none
held_by (some a) name = Map.get a.volumes name

-- The generation of a volume that an allocation holds.
abbrev pub held : World → String → String → Option ℕ
held w id name = held_by (Map.get w.allocations id) name

held-updates :
    (w u : World) (id i n : String) (a b : Allocation)
    → Map.get w.allocations id ≡ some a
    → b.volumes ≡ a.volumes
    → u.allocations ≡ Map.put w.allocations id b
    → held u i n ≡ held w i n
held-updates w u id i n a b h s p = rw (p, get-put) (ground (arith, eq_iff id i))

held-creates :
    (w u : World) (id i n : String) (a : Allocation)
    → Map.get w.allocations id ≡ none
    → a.volumes ≡ Map.empty
    → u.allocations ≡ Map.put w.allocations id a
    → held u i n ≡ held w i n
held-creates w u id i n a h s p = rw (p, get-put) (ground (arith, eq_iff id i, get-empty {V = ℕ} n))

held-removes :
    (w u : World) (id i n : String)
    → u.allocations ≡ Map.delete w.allocations id
    → held u i n ≡ (if id == i then none else held w i n)
held-removes w u id i n p = rw (p, get-delete) (ground arith)

held-attaches :
    (w u : World) (name owner i n : String) (g : ℕ) (a : Allocation)
    → Map.get w.allocations owner ≡ some a
    → u.allocations ≡ Map.put w.allocations owner (record a { volumes = Map.put a.volumes name g })
    → held u i n ≡ (if owner == i && name == n then some g else held w i n)
held-attaches w u name owner i n g a h p =
    rw (p, get-put) (ground (arith, eq_iff owner i, get-put a.volumes name n g))

held-detaches :
    (w : World) (owner name i n : String)
    → held (drop_hold w owner name) i n ≡ (if owner == i && name == n then none else held w i n)
unfolding drop_hold
held-detaches w owner name i n = elim (Option-cases (Map.get w.allocations owner)) [
  | inl gone ↦ rw (gone, drop_hold) (ground (arith, eq_iff owner i))
  | inr (a, h) ↦
      rw (h, drop_hold) (rw get-put (ground (arith, eq_iff owner i, get-delete a.volumes name n)))
]

-- The current holder of a volume.
pub record Holds (w : World) (id name : String) (g : ℕ) : Type 0 where
  pub volume : Volume
  pub present : Map.get w.volumes name ≡ some volume
  pub not_ahead : g ≤ volume.generation
  pub owns : g ≡ volume.generation → volume.owner ≡ id

-- Whatever an allocation holds is a generation of a volume that exists, none is ahead of the
-- volume, and whoever holds the current one is the owner.
pub record Fenced (w : World) : Type 0 where
  pub at : (id name : String) (g : ℕ) → held w id name ≡ some g → Holds w id name g

-- No generation is about to wrap.
pub record Unsaturated (w : World) : Type 0 where
  pub room :
      (name : String) (v : Volume) → Map.get w.volumes name ≡ some v → v.generation + 1 < uint64_mod

-- Holding is kept where the volume keeps its generation and owner.
Holds-keep :
    {w u : World} (id name : String) (g : ℕ) (v v' : Volume)
    → Holds w id name g
    → Map.get w.volumes name ≡ some v
    → Map.get u.volumes name ≡ some v'
    → v'.generation ≡ v.generation
    → v'.owner ≡ v.owner
    → Holds u id name g
Holds-keep id name g v v' h was is same own = record {
  volume = v';
  present = is;
  not_ahead = ground (arith, h.present);
  owns = λ e. ground (arith, h.present, h.owns);
}

-- A volume whose generation advances leaves every older hold behind.
Holds-advance :
    {w u : World} (id name : String) (g : ℕ) (v v' : Volume)
    → Holds w id name g
    → Map.get w.volumes name ≡ some v
    → Map.get u.volumes name ≡ some v'
    → v'.generation ≡ incr_uint64 v.generation
    → v.generation + 1 < uint64_mod
    → Holds u id name g
Holds-advance id name g v v' h was is next room = record {
  volume = v';
  present = is;
  not_ahead = ground (arith, h.present);
  owns = λ e. absurd (ground (arith, h.present));
}

Holds-same :
    {w u : World} (id name : String) (g : ℕ)
    → u.volumes ≡ w.volumes
    → Holds w id name g
    → Holds u id name g
Holds-same id name g q h = record {
  volume = h.volume;
  present = rw q h.present;
  not_ahead = h.not_ahead;
  owns = h.owns;
}

-- One volume is written; a hold on any other volume is kept.
Holds-put :
    {w u : World} (id n name : String) (g : ℕ) (v' : Volume)
    → u.volumes ≡ Map.put w.volumes name v'
    → (Map.get u.volumes name ≡ some v' → Holds w id name g → Holds u id name g)
    → Holds w id n g
    → Holds u id n g
Holds-put {w} {u} id n name g v' q written h = elim (Bool-cases (name == n)) [
  | inl same ↦
      let e = (eq_iff name n).0 same in
      subst (λ m. Holds u id m g) e
        (written (rw (q, get-put, eq_refl) refl) (subst (λ m. Holds w id m g) (sym e) h))
  | inr other ↦ record {
    volume = h.volume;
    present = rw (q, get-put, other) h.present;
    not_ahead = h.not_ahead;
    owns = h.owns;
  }
]

take_volume-Holds :
    {w u : World} (id name owner : String) (g : ℕ) (v : Volume)
    → v.generation + 1 < uint64_mod
    → Map.get w.volumes name ≡ some v
    → Map.get u.volumes name ≡ some (take_volume v owner)
    → Holds w id name g
    → Holds u id name g
unfolding take_volume
take_volume-Holds id name owner g v room was is h = elim (Bool-cases (v.owner == owner)) [
  | inl mine ↦ Holds-keep id name g v v h was (is ∙ rw mine refl) refl refl
  | inr new ↦
      Holds-advance id name g v (record v { owner = owner; generation = incr_uint64 v.generation })
        h was (is ∙ rw new refl) refl room
]

taken-owner : (v : Volume) (owner : String) → (take_volume v owner).owner ≡ owner
unfolding take_volume
taken-owner v owner = ground (arith, eq_iff v.owner owner)

VolumeStep-Holds :
    {w u : World} (id name : String) (g : ℕ) (v v' : Volume)
    → v.generation + 1 < uint64_mod
    → Map.get w.volumes name ≡ some v
    → Map.get u.volumes name ≡ some v'
    → VolumeStep v v'
    → Holds w id name g
    → Holds u id name g
VolumeStep-Holds id name g v v' room was is (VolumeStep.stays _ own same _) h =
    Holds-keep id name g v v' h was is same own
VolumeStep-Holds id name g v v' room was is (VolumeStep.moves _ _ _ _ own next _) h =
    Holds-advance id name g v v' h was is next room

held-same : (w u : World) (i n : String) → u.allocations ≡ w.allocations → held u i n ≡ held w i n
held-same w u i n p = rw p

-- What an allocation holds after it took a volume is the current generation, and it owns it.
attached-Holds :
    (w u : World) (owner i name n : String) (g : ℕ) (v : Volume)
    → u.volumes ≡ Map.put w.volumes name (take_volume v owner)
    → (owner == i && name == n) ≡ true
    → some (take_volume v owner).generation ≡ some g
    → Holds u i n g
attached-Holds w u owner i name n g v q both e = record {
  volume = take_volume v owner;
  present = rw (q, get-put) (ground arith);
  not_ahead = ground arith;
  owns = λ _. taken-owner v owner ∙ ground (arith, eq_iff owner i);
}

-- Evidence keeps the single-writer rule.
pub Effect-Fenced : {w u : World} → Unsaturated w → Fenced w → Effect w u → Fenced u
Effect-Fenced s f (elsewhere p q) = record {
  at = λ i n g e. Holds-same i n g q (f.at i n g (rw p at e));
}
Effect-Fenced {w} {u} s f (creates id a new none' _ p q) = record {
  at = λ i n g e. Holds-same i n g q (f.at i n g (sym (held-creates w u id i n a new none' p) ∙ e));
}
Effect-Fenced {w} {u} s f (updates id a b h step p q) = record {
  at = λ i n g e.
      Holds-same i n g q (f.at i n g (sym (held-updates w u id i n a b h step.same_volumes p) ∙ e));
}
Effect-Fenced {w} {u} s f (removes id p q) = record {
  at = λ i n g e. Holds-same i n g q (f.at i n g (ground (arith, held-removes w u id i n p)));
}
Effect-Fenced {w} {u} s f (adds name v new _ _ p q) = record {
  at = λ i n g e.
      Holds-put i n name g v q (λ _ h. absurd (ground (arith, h.present))) (f.at i n g (rw p at e));
}
Effect-Fenced {w} {u} s f (alters name v v' known step p q) = record {
  at = λ i n g e.
      Holds-put i n name g v' q
        (λ is. VolumeStep-Holds i name g v v' (s.room name v known) known is step)
        (f.at i n g (rw p at e));
}
Effect-Fenced {w} {u} s f (attaches name owner v a known h _ p q) = record {
  at = λ i n g e.
      let now = held-attaches w u name owner i n (take_volume v owner).generation a h p in
      elim (Bool-cases (owner == i && name == n)) [
        | inl new ↦ attached-Holds w u owner i name n g v q new (ground arith)
        | inr old ↦
            Holds-put i n name g (take_volume v owner) q
              (λ is. take_volume-Holds i name owner g v (s.room name v known) known is)
              (f.at i n g (ground arith))
      ];
}
Effect-Fenced {w} {u} s f (detaches name v known p q) = record {
  at = λ i n g e.
      let now = held-same (drop_hold w v.owner name) u i n p ∙ held-detaches w v.owner name i n in
      Holds-put i n name g _ q
        (λ is h. Holds-advance i name g v _ h known is refl (s.room name v known))
        (f.at i n g (ground arith));
}
