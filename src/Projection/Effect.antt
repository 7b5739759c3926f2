-- ===== src/Projection/Effect.antt =====
-- What one piece of evidence may do to the allocations and the volumes of a world: the
-- specification that control/projection.go is held to.
pub mod Allocations
pub mod Volumes
pub mod Nodes
use a4s.Prelude.{
  ◌≡◌, ◌≢◌, refl, ◌∙◌, Bool, true, false, Option, none, some, String, incr_uint64, if◌then◌else◌,
}
use a4s.Prelude.Map
use a4s.Types.World.{
  World, Allocation, Volume, VolumeHandoff, created, running, quiesced, snapshotted, transferred,
}
use a4s.Projection.Volumes.{take_volume, drop_hold}

-- An update of one allocation: what it holds of volumes and of the node's capacity is fixed, and
-- only a running allocation becomes ready.
pub record AllocationStep (a b : Allocation) : Type 0 where
  pub same_volumes : b.volumes ≡ a.volumes
  pub same_resources : b.resources ≡ a.resources
  pub same_budget : b.budget ≡ a.budget
  pub same_node : b.node ≡ a.node
  pub same_workload : b.workload ≡ a.workload
  pub ready_runs : (a.ready ≡ true → a.phase ≡ running) → b.ready ≡ true → b.phase ≡ running

-- The order of a move: quiesced with no owner, snapshotted, transferred against the checksum of
-- that snapshot. Adoption is a step of the volume.
pub data HandoffStep (v : Volume) : Option VolumeHandoff → Type 0 where
  keep : {h : Option VolumeHandoff} → h ≡ v.handoff → HandoffStep v h
  begin :
      (h : VolumeHandoff)
      → v.owner ≡ ""
      → h.phase ≡ quiesced
      → h.from ≡ v.node
      → HandoffStep v (some h)
  snapshot :
      (h k : VolumeHandoff)
      → v.handoff ≡ some h
      → h.phase ≡ quiesced
      → k.phase ≡ snapshotted
      → k.to ≡ h.to
      → HandoffStep v (some k)
  transfer :
      (h k : VolumeHandoff)
      → v.handoff ≡ some h
      → h.phase ≡ snapshotted
      → k.phase ≡ transferred
      → k.to ≡ h.to
      → k.checksum ≡ h.checksum
      → HandoffStep v (some k)

-- An update of one volume that no allocation takes part in.
pub data VolumeStep (v w : Volume) : Type 0 where
  stays :
      w.node ≡ v.node
      → w.owner ≡ v.owner
      → w.generation ≡ v.generation
      → HandoffStep v w.handoff
      → VolumeStep v w
  moves :
      (h : VolumeHandoff)
      → v.handoff ≡ some h
      → h.phase ≡ transferred
      → w.node ≡ h.to
      → w.owner ≡ v.owner
      → w.generation ≡ incr_uint64 v.generation
      → w.handoff ≡ none
      → VolumeStep v w

pub data Effect (w u : World) : Type 0 where
  elsewhere : u.allocations ≡ w.allocations → u.volumes ≡ w.volumes → Effect w u
  creates :
      (id : String) (a : Allocation)
      → Map.get w.allocations id ≡ none
      → a.volumes ≡ Map.empty
      → a.ready ≢ true
      → u.allocations ≡ Map.put w.allocations id a
      → u.volumes ≡ w.volumes
      → Effect w u
  updates :
      (id : String) (a b : Allocation)
      → Map.get w.allocations id ≡ some a
      → AllocationStep a b
      → u.allocations ≡ Map.put w.allocations id b
      → u.volumes ≡ w.volumes
      → Effect w u
  removes :
      (id : String)
      → u.allocations ≡ Map.delete w.allocations id
      → u.volumes ≡ w.volumes
      → Effect w u
  adds :
      (name : String) (v : Volume)
      → Map.get w.volumes name ≡ none
      → v.owner ≡ ""
      → v.generation ≡ 0
      → u.allocations ≡ w.allocations
      → u.volumes ≡ Map.put w.volumes name v
      → Effect w u
  alters :
      (name : String) (v v' : Volume)
      → Map.get w.volumes name ≡ some v
      → VolumeStep v v'
      → u.allocations ≡ w.allocations
      → u.volumes ≡ Map.put w.volumes name v'
      → Effect w u
  attaches :
      (name owner : String) (v : Volume) (a : Allocation)
      → Map.get w.volumes name ≡ some v
      → Map.get w.allocations owner ≡ some a
      → (v.owner ≢ "" → v.owner ≡ owner)
      → u.allocations
        ≡ Map.put w.allocations owner
            (record a { volumes = Map.put a.volumes name (take_volume v owner).generation })
      → u.volumes ≡ Map.put w.volumes name (take_volume v owner)
      → Effect w u
  detaches :
      (name : String) (v : Volume)
      → Map.get w.volumes name ≡ some v
      → u.allocations ≡ (drop_hold w v.owner name).allocations
      → u.volumes
        ≡ Map.put w.volumes name (record v { owner = ""; generation = incr_uint64 v.generation })
      → Effect w u

-- A projection may find that there is nothing to do.
pub keep_or :
    (w : World) (b : Bool) (u : World) → (b ≡ false → Effect w u) → Effect w (if b then w else u)
keep_or w true u h = elsewhere refl refl
keep_or w false u h = h refl

-- Only the allocations and the volumes count.
pub Effect-same :
    {w u t : World}
    → Effect w u
    → t.allocations ≡ u.allocations
    → t.volumes ≡ u.volumes
    → Effect w t
Effect-same (elsewhere p q) x y = elsewhere (x ∙ p) (y ∙ q)
Effect-same (creates id a n e r p q) x y = creates id a n e r (x ∙ p) (y ∙ q)
Effect-same (updates id a b h s p q) x y = updates id a b h s (x ∙ p) (y ∙ q)
Effect-same (removes id p q) x y = removes id (x ∙ p) (y ∙ q)
Effect-same (adds name v n b z p q) x y = adds name v n b z (x ∙ p) (y ∙ q)
Effect-same (alters name v v' h s p q) x y = alters name v v' h s (x ∙ p) (y ∙ q)
Effect-same (attaches name owner v a k h f p q) x y = attaches name owner v a k h f (x ∙ p) (y ∙ q)
Effect-same (detaches name v h p q) x y = detaches name v h (x ∙ p) (y ∙ q)
