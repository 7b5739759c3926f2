-- ===== src/Projection/Snapshots.antt =====
-- control/projection.go, the cases of `projectInto` on recovery points, and the choice of the
-- snapshots that may be pruned.
use Prim.Native.String
use a4s.Prelude.{
  ℕ, zero, suc, ◌-◌, Bool, false, ◌&&◌, ◌||◌, not, List, [], ◌∷◌, ◌++◌, String, ◌==◌, ℤ, pos,
  negsuc, if◌then◌else◌, Result, ok, ◌>>=◌, ◌>>◌, require, refuse, or_fail,
}
use a4s.Prelude.Map
use a4s.Types.World.{World, Volume, is_zero_time}
use a4s.Types.Evidence.{Evidence, seen}
use a4s.Projection.Volumes.{has, put_volume}

-- The lines of a text, with no empty one: `strings.Split(value, "\n")`, filtered. `line` is the
-- line that is being read.
split_from : String → String → List String
split_from line String.[] = if line == "" then [] else line ∷ []
split_from line (String.◌∷◌ c s) =
    let rest = split_from "" s in
    let more = split_from (String.◌++◌ line (String.◌∷◌ c String.[])) s in
    if String.◌∷◌ c String.[] == "\n" then if line == "" then rest else line ∷ rest else more

unfoldable pub split_lines : String → List String
unfolding split_from
split_lines value = split_from "" value

-- The list with the first occurrence of the target removed.
unfoldable pub remove_string : List String → String → List String
remove_string [] target = []
remove_string (v ∷ vs) target =
    let rest = remove_string vs target in if v == target then vs else v ∷ rest

abbrev pub last_or_empty : List String → String
last_or_empty [] = ""
last_or_empty (x ∷ []) = x
last_or_empty (x ∷ y ∷ ys) = last_or_empty (y ∷ ys)

unfoldable pub drop_snapshots : Volume → List String → Volume
unfolding remove_string
drop_snapshots v [] = v
drop_snapshots v (id ∷ ids) =
    drop_snapshots
      (record v {
        snapshots = Map.delete v.snapshots id;
        backups = Map.delete v.backups id;
        snapshot_order = remove_string v.snapshot_order id;
      })
      ids

-- The most recent surviving snapshot becomes last-known.
unfoldable pub settle_last : Volume → Volume
settle_last v =
    if has v.snapshots v.last_snapshot
    then v
    else record v { last_snapshot = last_or_empty v.snapshot_order }

unfoldable pub snapshots_pruned : World → Evidence → Result World
unfolding drop_snapshots settle_last
snapshots_pruned w e = do
  v ← or_fail (Map.get w.volumes e.target) "evidence %q names unknown volume %q"
  ok (put_volume w e.target (settle_last (drop_snapshots v (split_lines (seen e "removed")))))

unfoldable pub database_backed_up : World → Evidence → Result World
database_backed_up w e = do
  v ← or_fail (Map.get w.volumes e.target) "evidence %q names unknown volume %q"
  refuse (seen e "label" == "" || seen e "checksum" == "")
      "evidence %q must observe a backup label and checksum"
  ok (
      put_volume w e.target (record v {
        snapshots = Map.put v.snapshots (seen e "label") (seen e "checksum");
        snapshot_order =
            if has v.snapshots (seen e "label")
            then v.snapshot_order
            else v.snapshot_order ++ seen e "label" ∷ [];
        last_snapshot = seen e "label";
      }))

unfoldable pub backup_verified : World → Evidence → Result World
backup_verified w e = do
  v ← or_fail (Map.get w.volumes e.target) "evidence %q names unknown volume %q"
  refuse (seen e "snapshot" == "") "evidence %q must observe a snapshot id"
  if not (seen e "verified" == "true") then ok w else do
    require (has v.snapshots (seen e "snapshot"))
        "verification names unknown snapshot %q of volume %q"
    ok (
        put_volume w e.target (record v {
          verified_snapshot = seen e "snapshot";
          verified_at = if is_zero_time e.observed_at then v.verified_at else e.observed_at;
        }))

unfoldable pub volume_restored : World → Evidence → Result World
volume_restored w e = do
  v ← or_fail (Map.get w.volumes e.target) "evidence %q names unknown volume %q"
  refuse (seen e "snapshot" == "") "evidence %q must observe a snapshot id"
  require (has v.snapshots (seen e "snapshot")) "volume %q was restored from unknown snapshot %q"
  ok (put_volume w e.target (record v { restored_from = seen e "snapshot" }))

-- `retain`, at least 1.
unfoldable pub retained : ℤ → ℕ
retained (pos zero) = 1
retained (pos (suc n)) = suc n
retained (negsuc n) = 1

abbrev pub mem_string : String → List String → Bool
mem_string s [] = false
mem_string s (x ∷ xs) = x == s || mem_string s xs

-- The snapshots of an order that are not protected.
unfoldable pub unprotected : (String → Bool) → List String → List String
unprotected p [] = []
unprotected p (id ∷ ids) = let rest = unprotected p ids in if p id then rest else id ∷ rest

abbrev pub count_strings : List String → ℕ
count_strings [] = 0
count_strings (_ ∷ xs) = suc (count_strings xs)

abbrev pub drop_strings : ℕ → List String → List String
drop_strings zero xs = xs
drop_strings (suc n) [] = []
drop_strings (suc n) (x ∷ xs) = drop_strings n xs

-- The last `n` entries.
abbrev pub last_strings : ℕ → List String → List String
last_strings n order = drop_strings (count_strings order - n) order

unfoldable pub is_protected : Volume → ℤ → String → Bool
unfolding retained
is_protected v retain id =
    (not (v.last_snapshot == "") && v.last_snapshot == id)
    || has v.backups id
    || mem_string id (last_strings (retained retain) v.snapshot_order)

unfoldable pub prunable_snapshots : Volume → ℤ → List String
unfolding is_protected unprotected
prunable_snapshots v retain = unprotected (is_protected v retain) v.snapshot_order
