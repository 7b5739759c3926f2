-- ===== src/Projection/Retention.antt =====
-- control/projection.go: `prunableSnapshots`, and the volume after its snapshots are dropped.
use a4s.Prelude.{
  ◌≡◌, refl, sym, ◌∙◌, ap, subst, Bool, true, false, List, [], ◌∷◌, ◌++◌, String, ◌==◌, eq_iff,
  eq_refl, ℤ, pos, negsuc, ℕ, zero, suc, ◌+◌, ◌-◌, ◌<◌, ◌≤◌, some, is_some, arith,
}
use a4s.Prelude.Map
use a4s.Prelude.Map.{get-delete}
use a4s.Types.World.{Volume}
use a4s.Projection.Snapshots.{
  is_protected, retained, last_strings, drop_strings, count_strings, unprotected,
  prunable_snapshots, drop_snapshots, mem_string,
}

unprotected-mem :
    (p : String → Bool) (order : List String) (id : String)
    → p id ≡ true
    → mem_string id (unprotected p order) ≡ false
unfolding unprotected
unprotected-mem p [] id h = refl
unprotected-mem p (x ∷ order) id h = ground (arith, unprotected-mem p order id h, eq_iff x id)

drop_snapshots-get :
    (ids : List String) (v : Volume) (id : String)
    → mem_string id ids ≡ false
    → (Map.get (drop_snapshots v ids).snapshots id ≡ Map.get v.snapshots id)
      × (Map.get (drop_snapshots v ids).backups id ≡ Map.get v.backups id)
unfolding drop_snapshots
drop_snapshots-get [] v id h = (refl, refl)
drop_snapshots-get (x ∷ ids) v id h =
    let rest = drop_snapshots-get ids _ id (ground (arith, h)) in
    (
      rest.0 ∙ ground (arith, get-delete v.snapshots x id, eq_iff x id),
      rest.1 ∙ ground (arith, get-delete v.backups x id, eq_iff x id),
    )

-- Why a snapshot has to stay: it is the last one that is known, it has a backup, or fewer than
-- `retain` snapshots, and always fewer than one, are more recent.
pub data Needed (v : Volume) (retain : ℤ) (id : String) : Type 0 where
  last : v.last_snapshot ≡ id → (id == "") ≡ false → Needed v retain id
  backed_up : (checksum : String) → Map.get v.backups id ≡ some checksum → Needed v retain id
  newest : (older : List String) → v.snapshot_order ≡ older ++ id ∷ [] → Needed v retain id
  recent :
      (older newer : List String) (n : ℕ)
      → v.snapshot_order ≡ older ++ id ∷ newer
      → retain ≡ pos n
      → count_strings newer < n
      → Needed v retain id

count_strings-++ :
    (xs ys : List String) → count_strings (xs ++ ys) ≡ count_strings xs + count_strings ys
count_strings-++ [] ys = ground arith
count_strings-++ (x ∷ xs) ys = ground (arith, count_strings-++ xs ys)

drop_strings-mem :
    (older newer : List String) (id : String) (k : ℕ)
    → k ≤ count_strings older
    → mem_string id (drop_strings k (older ++ id ∷ newer)) ≡ true
drop_strings-mem [] newer id zero h = ground (arith, eq_refl id)
drop_strings-mem [] newer id (suc k) h = absurd (omega arith)
drop_strings-mem (x ∷ older) newer id zero h =
    ground (arith, drop_strings-mem older newer id zero (omega arith))
drop_strings-mem (x ∷ older) newer id (suc k) h = drop_strings-mem older newer id k (omega arith)

last_strings-mem :
    (older newer : List String) (id : String) (n : ℕ)
    → count_strings newer < n
    → mem_string id (last_strings n (older ++ id ∷ newer)) ≡ true
last_strings-mem older newer id n h =
    drop_strings-mem older newer id (count_strings (older ++ id ∷ newer) - n)
      (omega (arith, count_strings-++ older (id ∷ newer)))

retained-positive : (retain : ℤ) → 0 < retained retain
unfolding retained
retained-positive (pos zero) = ground arith
retained-positive (pos (suc n)) = ground arith
retained-positive (negsuc n) = ground arith

retained-pos : (n m : ℕ) → m < n → m < retained (pos n)
unfolding retained
retained-pos zero m h = absurd (omega arith)
retained-pos (suc n) m h = h

is_protected-recent :
    (v : Volume) (retain : ℤ) (id : String) (older newer : List String)
    → v.snapshot_order ≡ older ++ id ∷ newer
    → count_strings newer < retained retain
    → is_protected v retain id ≡ true
unfolding is_protected
is_protected-recent v retain id older newer is h =
    let found : mem_string id (last_strings (retained retain) v.snapshot_order) ≡ true =
      ap (λ o. mem_string id (last_strings (retained retain) o)) is
      ∙ last_strings-mem older newer id (retained retain) h in
    ground (arith, found)

Needed-is_protected :
    (v : Volume) (retain : ℤ) (id : String) → Needed v retain id → is_protected v retain id ≡ true
unfolding is_protected
Needed-is_protected v retain id (Needed.last is named) =
    ground (arith, (eq_iff v.last_snapshot id).1 is, ap (λ s. s == "") is ∙ named)
Needed-is_protected v retain id (Needed.backed_up checksum found) =
    let there : is_some (Map.get v.backups id) ≡ true = ap is_some found in ground (arith, there)
Needed-is_protected v retain id (Needed.newest older is) =
    is_protected-recent v retain id older [] is (retained-positive retain)
Needed-is_protected v retain id (Needed.recent older newer n is many few) =
    is_protected-recent v retain id older newer is (
      subst (λ r. count_strings newer < retained r) (sym many)
        (retained-pos n (count_strings newer) few))

-- A snapshot that has to stay is still recorded, with its checksum and its backup, once the
-- snapshots that may be pruned are dropped.
pub prune-protected :
    (v : Volume) (retain : ℤ) (id : String)
    → Needed v retain id
    → (Map.get (drop_snapshots v (prunable_snapshots v retain)).snapshots id
        ≡ Map.get v.snapshots id)
      × (Map.get (drop_snapshots v (prunable_snapshots v retain)).backups id ≡ Map.get v.backups id)
unfolding prunable_snapshots
prune-protected v retain id needed = drop_snapshots-get _ v id (
    unprotected-mem (is_protected v retain) v.snapshot_order id
      (Needed-is_protected v retain id needed))
