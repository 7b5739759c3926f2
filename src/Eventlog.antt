-- ===== src/Eventlog.antt =====
-- eventlog/chain.go and eventlog/store.go: the log of events as a chain of hashes.
pub mod Chain
pub mod Ingest
pub mod Replication
use a4s.Prelude.{
  ℕ, suc, ◌+◌, ◌%◌, Bool, ◌&&◌, Option, List, [], ◌∷◌, ◌++◌, String, ◌==◌, eqb, Result, ok, err,
  ◌>>=◌, ◌>>◌, require, incr_uint64, uint64_mod,
}
use a4s.Types.World.{Time}
use a4s.Types.Evidence.{Evidence}

-- control/types.go
pub record Event : Type 0 where
  pub sequence : ℕ
  pub at : Time
  pub type_name : String
  pub actor : String
  pub goal_id : String
  pub proposal_id : String
  pub action_id : String
  pub target : String
  pub kind : String
  pub world_revision : ℕ
  pub message : String
  pub evidence : Option Evidence

pub record Record : Type 0 where
  pub sequence : ℕ
  pub previous_hash : String
  pub hash : String
  pub event : Event

-- `eventHash`: SHA-256 of the previous hash and the JSON encoding of an event, which may fail.
abbrev pub EventHash : Type 0
EventHash = String → Event → Result String

-- A row of the table, with the JSON encoding of the event.
pub record Row : Type 0 where
  pub sequence : ℕ
  pub previous_hash : String
  pub hash : String
  pub payload : String

-- `json.Unmarshal` of a text into an event.
abbrev pub Decoder : Type 0
Decoder = String → Result Event

-- One turn of the loop of `verifyChain`, at an index.
unfoldable pub check_record : EventHash → ℕ → String → Record → Result (Unit {0})
check_record event_hash index previous r = do
  let sequence = (index + 1) % uint64_mod
  require (eqb r.sequence sequence && eqb r.event.sequence r.sequence)
      "record %d has invalid sequence"
  require (r.previous_hash == previous) "record %d breaks the hash chain"
  hash ← event_hash previous r.event
  require (hash == r.hash) "record %d has invalid hash"

unfoldable pub verify_from : EventHash → ℕ → String → List Record → Result (Unit {0})
unfolding check_record
verify_from event_hash index previous [] = ok tt
verify_from event_hash index previous (r ∷ rs) = do
  check_record event_hash index previous r
  verify_from event_hash (suc index) r.hash rs

unfoldable pub verify_chain : EventHash → List Record → Result (Unit {0})
unfolding verify_from
verify_chain event_hash records = verify_from event_hash 0 "" records

-- An open log: the rows of the table in order, and the head and the count that the process keeps.
pub record File : Type 0 where
  pub rows : List Row
  pub head_hash : String
  pub count : ℕ

abbrev pub new_row : (Event → String) → File → (sequence : ℕ) → (hash : String) → Event → Row
new_row marshal f sequence hash event = record {
  sequence = sequence;
  previous_hash = f.head_hash;
  hash = hash;
  payload = marshal event;
}

-- `Append` on an open log whose transaction commits: a row is added and the head advances, or
-- neither. `marshal` is `json.Marshal` of an event, which fails only where `eventHash`, which
-- marshals the event first, has failed.
unfoldable pub append : EventHash → (marshal : Event → String) → File → Event → Result File
append event_hash marshal f event = do
  let expected = incr_uint64 f.count
  require (eqb event.sequence expected) "event sequence %d, want %d"
  hash ← event_hash f.head_hash event
  ok (record {
    rows = f.rows ++ new_row marshal f expected hash event ∷ [];
    head_hash = hash;
    count = expected;
  })

abbrev pub decoded : Row → Event → Record
decoded row event = record {
  sequence = row.sequence;
  previous_hash = row.previous_hash;
  hash = row.hash;
  event = event;
}

-- `readRecords` on an open log whose database answers.
unfoldable pub read_records : Decoder → List Row → Result (List Record)
read_records unmarshal [] = ok []
read_records unmarshal (row ∷ rows) = elim (unmarshal row.payload) [
  | err _ ↦ err "decode event %d: %w"
  | ok event ↦ elim (read_records unmarshal rows) [
    | err m ↦ err m
    | ok records ↦ ok (decoded row event ∷ records)
  ]
]

abbrev pub events_of : List Record → List Event
events_of [] = []
events_of (r ∷ rs) = r.event ∷ events_of rs

-- `ReplayEvents`
unfoldable pub replay_events : Decoder → List Row → Result (List Event)
unfolding read_records
replay_events unmarshal rows = elim (read_records unmarshal rows) [
  | err m ↦ err m
  | ok records ↦ ok (events_of records)
]

-- `Verify` on an open log.
unfoldable pub verify : EventHash → Decoder → List Row → Result (Unit {0})
unfolding read_records verify_chain
verify event_hash unmarshal rows = elim (read_records unmarshal rows) [
  | err m ↦ err m
  | ok records ↦ verify_chain event_hash records
]
