-- ===== src/Eventlog/Replication.antt =====
-- eventlog/store.go: what a follower holds after `Ingest`.
use a4s.Prelude.{ℕ, suc, ◌≡◌, List, [], ◌∷◌, ◌++◌, String, ok}
use a4s.Eventlog.{Event, Record, Row, EventHash, File}

-- The row that a record is stored as.
abbrev pub row_of : (Event → String) → Record → Row
row_of marshal r = record {
  sequence = r.sequence;
  previous_hash = r.previous_hash;
  hash = r.hash;
  payload = marshal r.event;
}

abbrev pub rows_of : (Event → String) → List Record → List Row
rows_of marshal [] = []
rows_of marshal (r ∷ rs) = row_of marshal r ∷ rows_of marshal rs

-- The log with rows after its own.
abbrev pub with_rows : File → List Row → ℕ → String → File
with_rows f rows count head = record { rows = f.rows ++ rows; head_hash = head; count = count }

abbrev pub length {ℓ} : {A : Type ℓ} → List A → ℕ
length [] = 0
length (_ ∷ rs) = suc (length rs)

abbrev pub tip : String → List Record → String
tip previous [] = previous
tip previous (r ∷ rs) = tip r.hash rs

-- A row that continues a log.
record Continues (event_hash : EventHash) (f : File) (r : Record) : Type 0 where
  numbered : r.sequence ≡ suc f.count
  event_numbered : r.event.sequence ≡ suc f.count
  linked : r.previous_hash ≡ f.head_hash
  hashed : event_hash f.head_hash r.event ≡ ok r.hash

abbrev pub empty_log : File
empty_log = record { rows = []; head_hash = ""; count = 0 }

abbrev pub copy_of : (Event → String) → List Record → File
copy_of marshal rs = record { rows = rows_of marshal rs; head_hash = tip "" rs; count = length rs }
