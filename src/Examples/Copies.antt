-- ===== src/Examples/Copies.antt =====
-- The theorem on a follower of the log, applied.
use a4s.Prelude.{ℕ, none, List, [], ◌∷◌, Result}
use a4s.Eventlog.{Record}
use a4s.Examples.Chains.{event}

abbrev rows : List Record
rows =
    record { sequence = 1; previous_hash = ""; hash = "created"; event = event 1 "created" }
    ∷ record {
      sequence = 2;
      previous_hash = "created";
      hash = "running";
      event = event 2 "running";
    }
    ∷ []
