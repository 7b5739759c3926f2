-- ===== src/Types/Evidence.antt =====
-- control/types.go and control/projection.go: what is observed. A kind that the source does not
-- declare is `other`.
use Prim.Native.Char.{code}
use a4s.Prelude.{
  ℕ, zero, suc, ◌+◌, ◌*◌, ◌-◌, Bool, true, false, ◌&&◌, ◌||◌, Option, none, some, List, [], ◌∷◌,
  String, ◌≡◌, refl, ℤ, pos, negsuc, leb, ltb, eqb, if◌then◌else◌, int64_half,
}
use a4s.Prelude.Map
use a4s.Prelude.Map.{Map}
use a4s.Types.World.{Time}

pub data EvidenceKind : Type 0 where
  image_present allocation_created secret_mounted volume_created volume_attached : EvidenceKind
  volume_detached volume_snapshotted volume_restored volume_backed_up : EvidenceKind
  volume_quiesced volume_transferred volume_adopted snapshots_pruned : EvidenceKind
  backup_verified database_backed_up network_attached network_detached : EvidenceKind
  allocation_running allocation_ready node_cordoned node_uncordoned : EvidenceKind
  node_reachable node_unreachable allocation_stopped allocation_deleted : EvidenceKind
  allocation_failed route_reachable route_removed tools_granted : EvidenceKind
  agent_ready agent_spent agent_draining allocation_drained queue_observed : EvidenceKind
  provider_reachable policy_applied zone_published images_collected : EvidenceKind
  approval_granted approval_revoked diagnosis_recorded : EvidenceKind
  other : String → EvidenceKind

pub record Evidence : Type 0 where
  pub kind : EvidenceKind
  pub target : String
  pub source : String
  pub observed_at : Time
  pub expires_at : Time
  pub observed : Map String

-- `evidence.Observed[key]`, which is empty for a missing key.
unfoldable pub seen : Evidence → String → String
seen e key = elim (Map.get e.observed key) [ none ↦ "" | some v ↦ v ]

-- The bytes of a text, if it is ASCII.
abbrev pub codes : String → List ℕ
codes String.[] = []
codes (String.◌∷◌ c s) = code c ∷ codes s

is_space : ℕ → Bool
is_space c = eqb c b' ' || eqb c 9 || eqb c 11 || eqb c 12 || eqb c 13

is_digit : ℕ → Bool
is_digit c = leb b'0' c && leb c b'9'

skip_spaces : List ℕ → List ℕ
unfolding is_space
skip_spaces [] = []
skip_spaces (c ∷ cs) = let rest = skip_spaces cs in if is_space c then rest else c ∷ cs

-- The value of the leading digits, if there is one; what follows them is not read.
scan_digits : Bool → ℕ → List ℕ → Option ℕ
unfolding is_digit
scan_digits any acc [] = if any then some acc else none
scan_digits any acc (c ∷ cs) =
    let more = scan_digits true (acc * 10 + (c - b'0')) cs in
    if is_digit c then more else if any then some acc else none

-- A value outside `int64` is an error.
positive : Option ℕ → Option ℤ
positive none = none
positive (some n) = if ltb n int64_half then some (pos n) else none

negative : Option ℕ → Option ℤ
negative none = none
negative (some zero) = some (pos 0)
negative (some (suc n)) = if ltb n int64_half then some (negsuc n) else none

scan_signed : List ℕ → Option ℤ
unfolding positive negative scan_digits
scan_signed [] = none
scan_signed (c ∷ cs) =
    if eqb c b'-'
    then negative (scan_digits false 0 cs)
    else if eqb c b'+'
    then positive (scan_digits false 0 cs)
    else positive (scan_digits false 0 (c ∷ cs))

-- `fmt.Sscanf(text, "%d", &value)`, for ASCII text.
unfoldable pub scan_int : String → Option ℤ
unfolding scan_signed skip_spaces
scan_int text = scan_signed (skip_spaces (codes text))

unfoldable pub observed_int : Evidence → String → ℤ
observed_int e key = elim (scan_int (seen e key)) [ none ↦ pos 0 | some v ↦ v ]

scan_example : scan_int "-42x" ≡ some (negsuc 41)
unfolding scan_int
scan_example = refl
