-- ===== src/Projection/Moves.antt =====
-- control/projection.go: how evidence moves a volume, and how a log advances the revision.
use a4s.Prelude.{
  some-injective, none-some, ℕ, suc, ◌≡◌, ◌≢◌, refl, sym, ◌∙◌, ap, subst, some, true, String, ◌==◌,
  eq_iff, arith, if◌then◌else◌, incr_uint64, inl, inr, Bool-cases, List, [], ◌∷◌, ◌++◌, ok, err,
  >>=-eq-ok, ok-injective, ◌>>=◌, Result,
}
use a4s.Prelude.Map
use a4s.Prelude.Map.{get-put}
use a4s.Types.World.{World, Volume, VolumeHandoff, transferred}
use a4s.Types.Evidence.{Evidence, EvidenceKind}
use a4s.Projection.{project, replay, observes_nothing, project_kind}
use a4s.Projection.Volumes.{take_volume}
use a4s.Projection.Effect.{
  Effect, elsewhere, creates, updates, removes, adds, alters, attaches, detaches, VolumeStep,
}
use a4s.Projection.Refines.{project-Effect}

-- A volume that changed its node took the last step of a transferred handoff.
pub data Stays (v v' : Volume) : Type 0 where
  same_node : v'.node ≡ v.node → Stays v v'
  adopted :
      (h : VolumeHandoff)
      → v.handoff ≡ some h
      → h.phase ≡ transferred
      → v'.node ≡ h.to
      → v'.generation ≡ incr_uint64 v.generation
      → Stays v v'

Stays-refl : {v v' : Volume} → some v ≡ some v' → Stays v v'
Stays-refl e = same_node (ap (λ x. x.node) (sym (some-injective e)))

Stays-put :
    (w u : World) (n name : String) (v x y v' : Volume)
    → Map.get w.volumes n ≡ some v
    → u.volumes ≡ Map.put w.volumes n x
    → Stays v x
    → Map.get w.volumes name ≡ some y
    → Map.get u.volumes name ≡ some v'
    → Stays y v'
Stays-put w u n name v x y v' known q step hy h =
    let e = sym (get-put w.volumes n name x) ∙ sym (ap (λ m. Map.get m name) q) ∙ h in
    elim (Bool-cases (n == name)) [
      | inl same ↦
          let vy =
            some-injective (sym known ∙ ap (Map.get w.volumes) ((eq_iff n name).0 same) ∙ hy) in
          subst (λ z. Stays z v') vy (subst (Stays v) (some-injective (rw same at e)) step)
      | inr other ↦ Stays-refl (sym hy ∙ (rw other at e))
    ]

VolumeStep-Stays : (v x : Volume) → VolumeStep v x → Stays v x
VolumeStep-Stays v x (VolumeStep.stays n _ _ _) = same_node n
VolumeStep-Stays v x (VolumeStep.moves h is phase n _ g _) = adopted h is phase n g

take_volume-Stays : (v : Volume) (owner : String) → Stays v (take_volume v owner)
unfolding take_volume
take_volume-Stays v owner = same_node (ground arith)

Effect-Stays :
    {w u : World}
    → Effect w u
    → (name : String) (y v' : Volume) → Map.get w.volumes name ≡ some y
    → Map.get u.volumes name ≡ some v'
    → Stays y v'
Effect-Stays (elsewhere p q) n y v' hy h = Stays-refl (sym hy ∙ (rw q at h))
Effect-Stays (creates _ _ _ _ _ p q) n y v' hy h = Stays-refl (sym hy ∙ (rw q at h))
Effect-Stays (updates _ _ _ _ _ p q) n y v' hy h = Stays-refl (sym hy ∙ (rw q at h))
Effect-Stays (removes _ p q) n y v' hy h = Stays-refl (sym hy ∙ (rw q at h))
Effect-Stays {w} {u} (adds n x new _ _ p q) name y v' hy h =
    let e = sym (get-put w.volumes n name x) ∙ sym (ap (λ m. Map.get m name) q) ∙ h in
    elim (Bool-cases (n == name)) [
      | inl same ↦
          absurd (none-some (sym new ∙ ap (Map.get w.volumes) ((eq_iff n name).0 same) ∙ hy))
      | inr other ↦ Stays-refl (sym hy ∙ (rw other at e))
    ]
Effect-Stays {w} {u} (alters n v x known step p q) name y v' hy h =
    Stays-put w u n name v x y v' known q (VolumeStep-Stays v x step) hy h
Effect-Stays {w} {u} (attaches n owner v a known _ _ p q) name y v' hy h =
    Stays-put w u n name v (take_volume v owner) y v' known q (take_volume-Stays v owner) hy h
Effect-Stays {w} {u} (detaches n v known p q) name y v' hy h =
    Stays-put w u n name v _ y v' known q (same_node refl) hy h

-- Accepted evidence changes the node of a volume only as the last step of its handoff: the
-- handoff was transferred, the new node is its target, and the generation advances.
pub project-adopts :
    (w u : World) (e : Evidence) (name : String) (v v' : Volume)
    → project w e ≡ ok u
    → Map.get w.volumes name ≡ some v
    → Map.get u.volumes name ≡ some v'
    → v'.node ≢ v.node
    → (h : VolumeHandoff) × (v.handoff ≡ some h)
      × (h.phase ≡ transferred)
      × (v'.node ≡ h.to)
      × (v'.generation ≡ incr_uint64 v.generation)
project-adopts w u e name v v' step hv hv' moved =
    elim (Effect-Stays (project-Effect w e step) name v v' hv hv') [
      | same_node s ↦ absurd (moved s)
      | adopted h is phase n g ↦ (h, is, phase, n, g)
    ]

-- How many pieces of a log observe something.
unfoldable pub observations : List Evidence → ℕ
observations [] = 0
observations (e ∷ es) =
    let rest = observations es in if observes_nothing e.kind then rest else suc rest

observes_nothing-kind :
    (k : EvidenceKind) (w : World) (e : Evidence) (u : World)
    → observes_nothing k ≡ true
    → project_kind k w e ≡ ok u
    → u ≡ w
unfolding observes_nothing project_kind
observes_nothing-kind EvidenceKind.diagnosis_recorded w e u t h = sym (ok-injective h)
observes_nothing-kind _ w e u t h = cc

-- Accepted evidence adds one to the revision, unless it is a diagnosis, which changes nothing at
-- all.
pub project-revision :
    (w u : World) (e : Evidence)
    → project w e ≡ ok u
    → if observes_nothing e.kind then u ≡ w else u.revision ≡ incr_uint64 w.revision
unfolding project
project-revision w u e h =
    let (next, step, rest) = >>=-eq-ok (project_kind e.kind w e) _ h in
    elim (Bool-cases (observes_nothing e.kind)) [
      | inl nothing ↦ rw nothing (
          sym (ok-injective (rw nothing at rest))
          ∙ observes_nothing-kind e.kind w e next nothing step)
      | inr some' ↦ rw some' (ap (λ x. x.revision) (sym (ok-injective (rw some' at rest))))
    ]

bind_later :
    (r : Result World) (f g k : World → Result World)
    → ((a : World) → f a ≡ (g a >>= k))
    → (r >>= f) ≡ ((r >>= g) >>= k)
unfolding ◌>>=◌
bind_later (ok a) f g k h = h a
bind_later (err m) f g k h = refl

-- Rebuilding from a log can stop at any point and go on from the world reached there.
pub replay-++ :
    (es fs : List Evidence) (w : World) → replay w (es ++ fs) ≡ (replay w es >>= λ u. replay u fs)
unfolding replay ◌>>=◌
replay-++ [] fs w = refl
replay-++ (e ∷ es) fs w = bind_later (project w e) _ _ _ λ u. replay-++ es fs u
