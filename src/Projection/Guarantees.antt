-- ===== src/Projection/Guarantees.antt =====
-- control/projection.go: what holds of every world that is rebuilt from a log.
use a4s.Prelude.{
  some-injective, none-some, ℕ, ◌≤◌, ◌<◌, ◌≡◌, refl, sym, ◌∙◌, ap, subst, some, true, String, ◌==◌,
  arith, uint64_mod, inl, inr, Bool-cases, Option-cases, List, [], ◌∷◌, ok, >>=-eq-ok, ok-injective,
}
use a4s.Prelude.Map
use a4s.Prelude.Map.{get-put, get-delete, get-empty}
use a4s.Types.World.{World, Allocation, Volume, running}
use a4s.Types.Evidence.{Evidence}
use a4s.Projection.{project, replay}
use a4s.Projection.Volumes.{drop_hold}
use a4s.Projection.Effect.{
  Effect, elsewhere, creates, updates, removes, adds, alters, attaches, detaches,
}
use a4s.Projection.Refines.{project-Effect}
use a4s.Projection.Fencing.{Fenced, held, Holds}
use a4s.Projection.Replay.{Bounded, replay-Fenced, count_evidence}

-- The world before any evidence.
pub record Fresh (w : World) : Type 0 where
  pub no_allocations : w.allocations ≡ Map.empty
  pub no_volumes : w.volumes ≡ Map.empty

pub Fresh-Fenced : (w : World) → Fresh w → Fenced w
Fresh-Fenced w f = record {
  at = λ i n g e. absurd (none-some (rw (f.no_allocations, get-empty) at e));
}

pub Fresh-Bounded : (k : ℕ) (w : World) → k < uint64_mod → Fresh w → Bounded k w
Fresh-Bounded k w small f = record {
  small = small;
  room = λ n v e. absurd (none-some (rw (f.no_volumes, get-empty) at e));
}

Fresh-Holds :
    (es : List Evidence) (w u : World)
    → Fresh w
    → count_evidence es < uint64_mod
    → replay w es ≡ ok u
    → (id name : String) (g : ℕ) → held u id name ≡ some g
    → Holds u id name g
Fresh-Holds es w u f small h id name g e =
    let fenced = replay-Fenced es w u (Fresh-Bounded _ w small f) (Fresh-Fenced w f) h in
    fenced.at id name g e

-- After any log of fewer than 2^64 pieces of evidence that is accepted from a world with no
-- allocation and no volume, what an allocation holds is a generation of a volume that exists, it
-- is not ahead of that volume, and who holds the current generation is the owner.
pub replay-Holds :
    (es : List Evidence) (w u : World)
    → Fresh w
    → count_evidence es < uint64_mod
    → replay w es ≡ ok u
    → (id name : String) (g : ℕ) → held u id name ≡ some g
    → (v : Volume) × (Map.get u.volumes name ≡ some v)
      × (g ≤ v.generation)
      × (g ≡ v.generation → v.owner ≡ id)
replay-Holds es w u f small h id name g e =
    let x = Fresh-Holds es w u f small h id name g e in (x.volume, x.present, x.not_ahead, x.owns)

-- After any log of fewer than 2^64 pieces of evidence that is accepted from a world with no
-- allocation and no volume, two allocations that hold the current generation of a volume are the same
-- allocation: a volume has one writer.
pub replay-single_writer :
    (es : List Evidence) (w u : World)
    → Fresh w
    → count_evidence es < uint64_mod
    → replay w es ≡ ok u
    → (i j name : String) (v : Volume) → Map.get u.volumes name ≡ some v
    → held u i name ≡ some v.generation
    → held u j name ≡ some v.generation
    → i ≡ j
replay-single_writer es w u f small h i j name v known hi hj =
    let x = Fresh-Holds es w u f small h i name v.generation hi in
    let y = Fresh-Holds es w u f small h j name v.generation hj in
    let ex = some-injective (sym known ∙ x.present) in
    let ey = some-injective (sym known ∙ y.present) in
    sym (x.owns (ap (λ z. z.generation) ex))
    ∙ ap (λ z. z.owner) (sym ex ∙ ey)
    ∙ y.owns (ap (λ z. z.generation) ey)

pub record ReadyRuns (w : World) : Type 0 where
  pub at :
      (id : String) (a : Allocation)
      → Map.get w.allocations id ≡ some a
      → a.ready ≡ true
      → a.phase ≡ running

ready-put :
    (w u : World) (id : String) (b : Allocation)
    → ReadyRuns w
    → (b.ready ≡ true → b.phase ≡ running)
    → u.allocations ≡ Map.put w.allocations id b
    → ReadyRuns u
ready-put w u id b r good p = record {
  at = λ i a h e.
      let now = sym (get-put w.allocations id i b) ∙ sym (ap (λ m. Map.get m i) p) ∙ h in
      elim (Bool-cases (id == i)) [
        | inl same ↦
            let is = some-injective (rw same at now) in
            sym (ap (λ x. x.phase) is) ∙ good (ap (λ x. x.ready) is ∙ e)
        | inr other ↦ r.at i a (rw other at now) e
      ];
}

ready-same : (w u : World) → ReadyRuns w → u.allocations ≡ w.allocations → ReadyRuns u
ready-same w u r p = record { at = λ i a h e. r.at i a (rw p at h) e }

drop_hold-ReadyRuns :
    (w : World) (owner name : String) → ReadyRuns w → ReadyRuns (drop_hold w owner name)
unfolding drop_hold
drop_hold-ReadyRuns w owner name r = elim (Option-cases (Map.get w.allocations owner)) [
  | inl gone ↦ rw (gone, drop_hold) r
  | inr (a, h) ↦ rw (h, drop_hold) (ready-put w _ owner _ r (r.at owner a h) refl)
]

pub Effect-ReadyRuns : {w u : World} → ReadyRuns w → Effect w u → ReadyRuns u
Effect-ReadyRuns {w} {u} r (elsewhere p _) = ready-same w u r p
Effect-ReadyRuns {w} {u} r (creates id a _ _ off p _) =
    ready-put w u id a r (λ on. absurd (off on)) p
Effect-ReadyRuns {w} {u} r (updates id a b h step p _) =
    ready-put w u id b r (step.ready_runs (r.at id a h)) p
Effect-ReadyRuns {w} {u} r (removes id p _) = record {
  at = λ i a h e.
      let now = sym (get-delete w.allocations id i) ∙ sym (ap (λ m. Map.get m i) p) ∙ h in
      r.at i a (ground (arith, now)) e;
}
Effect-ReadyRuns {w} {u} r (adds _ _ _ _ _ p _) = ready-same w u r p
Effect-ReadyRuns {w} {u} r (alters _ _ _ _ _ p _) = ready-same w u r p
Effect-ReadyRuns {w} {u} r (attaches _ owner _ a _ h _ p _) =
    ready-put w u owner _ r (r.at owner a h) p
Effect-ReadyRuns {w} {u} r (detaches name v _ p _) =
    ready-same (drop_hold w v.owner name) u (drop_hold-ReadyRuns w v.owner name r) p

pub Fresh-ReadyRuns : (w : World) → Fresh w → ReadyRuns w
Fresh-ReadyRuns w f = record {
  at = λ i a h _. absurd (none-some (rw (f.no_allocations, get-empty) at h));
}

-- Whatever the log, in the world it rebuilds an allocation is ready only while it runs, if that
-- was so before the log.
pub replay-ReadyRuns :
    (es : List Evidence) (w u : World) → ReadyRuns w → replay w es ≡ ok u → ReadyRuns u
unfolding replay
replay-ReadyRuns [] w u r h = subst ReadyRuns (ok-injective h) r
replay-ReadyRuns (e ∷ es) w u r h =
    let (next, step, rest) = >>=-eq-ok (project w e) _ h in
    replay-ReadyRuns es next u (Effect-ReadyRuns r (project-Effect w e step)) rest
