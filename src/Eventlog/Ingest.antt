-- ===== src/Eventlog/Ingest.antt =====
-- eventlog/store.go: how a follower takes the records of a primary.
use a4s.Prelude.{
  ℕ, zero, suc, ◌+◌, ◌-◌, ◌%◌, true, false, not, Option, none, some, List, [], ◌∷◌, String, ◌==◌,
  eqb, leb, if◌then◌else◌, Result, ok, err, uint64_mod, incr_uint64,
}
use a4s.Types.Evidence.{Evidence}
use a4s.Eventlog.{Event, Record, Row, EventHash, Decoder, File, append, read_records}

-- The row at a place, counted from 0.
abbrev pub row_at : List Row → ℕ → Option Row
row_at [] n = none
row_at (r ∷ rs) zero = some r
row_at (r ∷ rs) (suc n) = row_at rs n

-- `NextSequence() - 1`
abbrev pub last_sequence : File → ℕ
last_sequence f = (incr_uint64 f.count + (uint64_mod - 1)) % uint64_mod

-- `confirmRecord`
unfoldable pub confirm_record : File → Record → Result (Unit {0})
confirm_record f r = if eqb r.sequence 0 then ok tt else elim (row_at f.rows (r.sequence - 1)) [
  | none ↦ ok tt
  | some mine ↦
      if not (mine.hash == r.hash)
      then err "record %d differs from the primary: histories have diverged"
      else ok tt
]

-- `Ingest`: the log that is left, the number of rows added, and the error.
unfoldable pub ingest :
    EventHash → (Event → String) → List Record → File → ℕ → File × ℕ × Result (Unit {0})
unfolding confirm_record append
ingest event_hash marshal [] f appended = (f, appended, ok tt)
ingest event_hash marshal (r ∷ rs) f appended = elim (leb r.sequence (last_sequence f)) [
  | true ↦ elim (confirm_record f r) [
    | err e ↦ (f, appended, err e)
    | ok _ ↦ ingest event_hash marshal rs f appended
  ]
  | false ↦ elim (append event_hash marshal f r.event) [
    | err e ↦ (f, appended, err "ingest record %d: %w")
    | ok g ↦ elim (g.head_hash == r.hash) [
      | false ↦ (
        g,
        appended,
        err
            "ingested record %d derives hash %s but the primary recorded %s: histories have diverged",
      )
      | true ↦ ingest event_hash marshal rs g (suc appended)
    ]
  ]
]

abbrev pub evidence_in : List Record → List Evidence
evidence_in [] = []
evidence_in (r ∷ rs) =
    let rest = evidence_in rs in elim r.event.evidence [ none ↦ rest | some e ↦ e ∷ rest ]

-- `ReplayEvidence`
unfoldable pub replay_evidence : Decoder → List Row → Result (List Evidence)
unfolding read_records
replay_evidence unmarshal rows = elim (read_records unmarshal rows) [
  | err m ↦ err m
  | ok records ↦ ok (evidence_in records)
]

-- `loadHead`, of the head and the rows that the database holds.
unfoldable pub load_head :
    (sequence : ℕ) → (hash : String) → (rows : List Row) → (count : ℕ) → Result File
load_head sequence hash rows count =
    if not (eqb count sequence)
    then err
        "event log holds %d records but its chain head is at %d: history was modified outside a4s"
    else ok (record { rows = rows; head_hash = hash; count = count })
