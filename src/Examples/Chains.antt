-- ===== src/Examples/Chains.antt =====
-- The theorem on the event log, applied to two events and a hash that is the message.
use a4s.Prelude.{
  ℕ, ◌≡◌, refl, Option, none, List, [], ◌∷◌, String, ◌==◌, if◌then◌else◌, Result, ok, err,
}
use a4s.Eventlog.{Event, EventHash, File, append, verify, replay_events}
use a4s.Eventlog.Chain.{append_all, append_all-verifies, ReadBack, empty_file}

abbrev pub message_hash : EventHash
message_hash previous e = ok e.message

abbrev pub event : ℕ → String → Event
event n message = record {
  sequence = n;
  at = 10;
  type_name = "evidence";
  actor = "node";
  goal_id = "web-goal";
  proposal_id = "";
  action_id = "";
  target = "web-0";
  kind = "";
  world_revision = n;
  message = message;
  evidence = none;
}

abbrev events : List Event
events = event 1 "created" ∷ event 2 "running" ∷ []

abbrev or_empty : Result File → File
or_empty (ok f) = f
or_empty (err _) = empty_file

-- A text form of the two events: their messages.
abbrev pub message_of : Event → String
message_of e = e.message

abbrev read_message : String → Result Event
read_message text = ok (event (if text == "created" then 1 else 2) text)

events-ReadBack : ReadBack message_of read_message events
events-ReadBack = (refl, (refl, tt))

abbrev written : File
written = or_empty (append_all message_hash message_of empty_file events)

written-appended : append_all message_hash message_of empty_file events ≡ ok written
unfolding append_all a4s.Prelude.◌>>=◌ append
written-appended = refl

append_all-verifies_example :
    (verify message_hash read_message written.rows ≡ ok tt)
    × (replay_events read_message written.rows ≡ ok events)
append_all-verifies_example =
    append_all-verifies message_hash message_of read_message events written events-ReadBack
      written-appended
