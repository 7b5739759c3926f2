-- ===== src/Eventlog/Chain.antt =====
-- eventlog/chain.go and eventlog/store.go: the chain that `Append` writes.
use a4s.Prelude.{
  ℕ, suc, ◌+◌, ◌%◌, ◌≡◌, refl, sym, ◌∙◌, ap, subst, true, List, [], ◌∷◌, ◌++◌, String, ◌==◌,
  eq_refl, eq_iff, eqb, arith, Result, Result-cases, inl, inr, err_ok, ok, ◌>>=◌, >>=-eq-ok,
  ok-injective, require, require-eq-ok, incr_uint64, uint64_mod, append_nil, snoc_append,
}
use a4s.Eventlog.{
  Event, Record, Row, EventHash, Decoder, File, check_record, verify_from, verify_chain, append,
  new_row, decoded, read_records, events_of, replay_events, verify,
}

abbrev count_records : List Record → ℕ
count_records [] = 0
count_records (_ ∷ rs) = suc (count_records rs)

abbrev last_hash : String → List Record → String
last_hash previous [] = previous
last_hash previous (r ∷ rs) = last_hash r.hash rs

-- A log whose rows are read back as records that verify and hold some events, with the head and the
-- count of the last of them.
pub record Sound (event_hash : EventHash) (unmarshal : Decoder) (es : List Event) (f : File)
    : Type 0 where
  pub records : List Record
  pub read : read_records unmarshal f.rows ≡ ok records
  pub verified : verify_chain event_hash records ≡ ok tt
  pub head : f.head_hash ≡ last_hash "" records
  pub counted : f.count ≡ count_records records % uint64_mod
  pub events : events_of records ≡ es

read_records-snoc :
    (rows : List Row) (unmarshal : Decoder) (row : Row) (records : List Record) (e : Event)
    → read_records unmarshal rows ≡ ok records
    → unmarshal row.payload ≡ ok e
    → read_records unmarshal (rows ++ row ∷ []) ≡ ok (records ++ decoded row e ∷ [])
unfolding read_records
read_records-snoc [] unmarshal row records e h back =
    rw (read_records, back) (ap (λ rs. ok (rs ++ decoded row e ∷ [])) (ok-injective h))
read_records-snoc (x ∷ rows) unmarshal row records e h back =
    elim (Result-cases (unmarshal x.payload)) [
      | inl (m, f) ↦ absurd (err_ok (rw (read_records, f) at h))
      | inr (v, f) ↦ elim (Result-cases (read_records unmarshal rows)) [
        | inl (m, g) ↦ absurd (err_ok (rw (read_records, f, g) at h))
        | inr (rs, g) ↦
            rw (read_records, f, read_records-snoc rows unmarshal row rs e g back)
              (ap (λ q. ok (q ++ decoded row e ∷ [])) (ok-injective (rw (read_records, f, g) at h)))
      ]
    ]

then_ok :
    (r : Result (Unit {0})) (k : Result (Unit {0})) {u : Unit {0}} → r ≡ ok u → (r >>= λ _. k) ≡ k
unfolding ◌>>=◌
then_ok r k h = rw h refl

verify_from-snoc :
    (rs : List Record) (event_hash : EventHash) (index end : ℕ) (previous : String) (x : Record)
    → verify_from event_hash index previous rs ≡ ok tt
    → end ≡ count_records rs + index
    → check_record event_hash end (last_hash previous rs) x ≡ ok tt
    → verify_from event_hash index previous (rs ++ x ∷ []) ≡ ok tt
unfolding verify_from
verify_from-snoc [] event_hash index end previous x h n c =
    then_ok _ (ok tt)
      (subst (λ i. check_record event_hash i previous x ≡ ok tt) (n ∙ ground arith) c)
verify_from-snoc (r ∷ rs) event_hash index end previous x h n c =
    let (u, step, rest) = >>=-eq-ok (check_record event_hash index previous r) _ h in
    then_ok _ _ step
    ∙ verify_from-snoc rs event_hash (suc index) end r.hash x rest (n ∙ ground arith) c

count_records-snoc :
    (rs : List Record) (x : Record) → count_records (rs ++ x ∷ []) ≡ suc (count_records rs)
count_records-snoc [] x = refl
count_records-snoc (r ∷ rs) x = ap suc (count_records-snoc rs x)

last_hash-snoc :
    (rs : List Record) (previous : String) (x : Record) → last_hash previous (rs ++ x ∷ []) ≡ x.hash
last_hash-snoc [] previous x = refl
last_hash-snoc (r ∷ rs) previous x = last_hash-snoc rs r.hash x

events_of-snoc :
    (rs : List Record) (x : Record) → events_of (rs ++ x ∷ []) ≡ events_of rs ++ x.event ∷ []
events_of-snoc [] x = refl
events_of-snoc (r ∷ rs) x = ap (λ es. r.event ∷ es) (events_of-snoc rs x)

check_record-ok :
    (event_hash : EventHash) (index : ℕ) (previous hash : String) (x : Record)
    → eqb x.sequence ((index + 1) % uint64_mod) ≡ true
    → eqb x.event.sequence x.sequence ≡ true
    → (x.previous_hash == previous) ≡ true
    → event_hash previous x.event ≡ ok hash
    → (hash == x.hash) ≡ true
    → check_record event_hash index previous x ≡ ok tt
unfolding check_record require ◌>>=◌
check_record-ok event_hash index previous hash x a b c d e = rw (a, b, c, d, e) refl

-- What an append that is accepted did.
appended :
    (event_hash : EventHash) (marshal : Event → String) (f f' : File) (e : Event)
    → append event_hash marshal f e ≡ ok f'
    → (hash : String) × (eqb e.sequence (incr_uint64 f.count) ≡ true)
      × (event_hash f.head_hash e ≡ ok hash)
      × (f' ≡ record {
        rows = f.rows ++ new_row marshal f (incr_uint64 f.count) hash e ∷ [];
        head_hash = hash;
        count = incr_uint64 f.count;
      })
unfolding append
appended event_hash marshal f f' e h =
    let (u, numbered, rest) = >>=-eq-ok (require (eqb e.sequence (incr_uint64 f.count)) _) _ h in
    let (hash, hashed, is) = >>=-eq-ok (event_hash f.head_hash e) _ rest in
    (hash, require-eq-ok _ _ numbered, hashed, sym (ok-injective is))

append-Sound :
    (event_hash : EventHash) (marshal : Event → String) (unmarshal : Decoder) (es : List Event)
    (f f' : File) (e : Event)
    → unmarshal (marshal e) ≡ ok e
    → Sound event_hash unmarshal es f
    → append event_hash marshal f e ≡ ok f'
    → Sound event_hash unmarshal (es ++ e ∷ []) f'
unfolding verify_chain
append-Sound event_hash marshal unmarshal es f f' e back s h =
    let (hash, numbered, hashed, is) = appended event_hash marshal f f' e h in
    let row = new_row marshal f (incr_uint64 f.count) hash e in
    let new = decoded row e in
    subst (Sound event_hash unmarshal (es ++ e ∷ [])) (sym is) (record {
      records = s.records ++ new ∷ [];
      read = read_records-snoc f.rows unmarshal row s.records e s.read back;
      verified =
          verify_from-snoc s.records event_hash 0 (count_records s.records) "" new s.verified
            (ground arith)
            (check_record-ok event_hash (count_records s.records) (last_hash "" s.records) hash new
              (ground (arith, s.counted)) numbered
              ((eq_iff f.head_hash (last_hash "" s.records)).1 s.head)
              (ap (λ p. event_hash p e) (sym s.head) ∙ hashed) (eq_refl hash));
      head = sym (last_hash-snoc s.records "" new);
      counted = ground (arith, s.counted, count_records-snoc s.records new);
      events = events_of-snoc s.records new ∙ ap (λ xs. xs ++ e ∷ []) s.events;
    })

-- Appending events one after the other.
unfoldable pub append_all : EventHash → (Event → String) → File → List Event → Result File
append_all event_hash marshal f [] = ok f
append_all event_hash marshal f (e ∷ es) = do
  g ← append event_hash marshal f e
  append_all event_hash marshal g es

-- Every event of a list is read back from its encoding.
abbrev pub ReadBack : (Event → String) → Decoder → List Event → Type 0
ReadBack marshal unmarshal [] = Unit {0}
ReadBack marshal unmarshal (e ∷ es) = (unmarshal (marshal e) ≡ ok e) × ReadBack marshal unmarshal es

append_all-Sound :
    (es : List Event) (event_hash : EventHash) (marshal : Event → String) (unmarshal : Decoder)
    (old : List Event) (f f' : File)
    → ReadBack marshal unmarshal es
    → Sound event_hash unmarshal old f
    → append_all event_hash marshal f es ≡ ok f'
    → Sound event_hash unmarshal (old ++ es) f'
unfolding append_all
append_all-Sound [] event_hash marshal unmarshal old f f' back s h =
    subst (λ xs. Sound event_hash unmarshal xs f') (sym (append_nil old))
      (subst (Sound event_hash unmarshal old) (ok-injective h) s)
append_all-Sound (e ∷ es) event_hash marshal unmarshal old f f' (here, back) s h =
    let (g, step, rest) = >>=-eq-ok (append event_hash marshal f e) _ h in
    subst (λ xs. Sound event_hash unmarshal xs f') (snoc_append old e es)
      (append_all-Sound es event_hash marshal unmarshal (old ++ e ∷ []) g f' back
        (append-Sound event_hash marshal unmarshal old f g e here s step) rest)

abbrev pub empty_file : File
empty_file = record { rows = []; head_hash = ""; count = 0 }

empty_file-Sound :
    (event_hash : EventHash) (unmarshal : Decoder) → Sound event_hash unmarshal [] empty_file
unfolding verify_chain verify_from read_records
empty_file-Sound event_hash unmarshal = record {
  records = [];
  read = refl;
  verified = refl;
  head = refl;
  counted = ground arith;
  events = refl;
}

-- However many events are appended to an empty log, if all are accepted and JSON reads each of them
-- back as it was written, the log verifies against the hash that it was written with, and replaying
-- it gives the events back in their order.
pub append_all-verifies :
    (event_hash : EventHash) (marshal : Event → String) (unmarshal : Decoder) (es : List Event)
    (f : File)
    → ReadBack marshal unmarshal es
    → append_all event_hash marshal empty_file es ≡ ok f
    → (verify event_hash unmarshal f.rows ≡ ok tt) × (replay_events unmarshal f.rows ≡ ok es)
unfolding verify replay_events
append_all-verifies event_hash marshal unmarshal es f back h =
    let s =
      append_all-Sound es event_hash marshal unmarshal [] empty_file f back
        (empty_file-Sound event_hash unmarshal) h in
    (rw (verify, s.read) s.verified, rw (replay_events, s.read) (ap ok s.events))
