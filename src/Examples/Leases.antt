-- ===== src/Examples/Leases.antt =====
-- The theorems on leases, applied.
use a4s.Prelude.{
  ◌+◌, ◌<◌, ◌≡◌, ◌≢◌, refl, true, false, some, [], ◌∷◌, String, eq_iff, arith, ok, err,
}
use a4s.Prelude.Map
use a4s.Lease.{Lease, LeaseManager, acquire, new_lease, release, holder}
use a4s.Prelude.Map.Keys.{is_distinct}
use a4s.Lease.Exclusion.{Others, acquire-excludes}

abbrev free : LeaseManager
free = record { leases = Map.empty; ttl = 300; lease_id = λ proposal _. proposal }

abbrev first : Lease
first = new_lease free 10 "g1" "p1" "web-0"

abbrev taken : LeaseManager
taken = record free { leases = record { entries = ("web-0", first) ∷ [] } }

taken-acquired : acquire free 10 "g1" "p1" ("web-0" ∷ []) ≡ ok ("p1", taken)
unfolding acquire Map.get Map.empty Map.put
taken-acquired = refl

differ : false ≢ true
differ e = cc

p1_not_p2 : ◌≢◌ {A = String} "p1" "p2"
p1_not_p2 e = absurd (differ ((eq_iff "p1" "p2").1 e))

in_time : 100 < 10 + free.ttl
in_time = ground arith

abbrev other_lease : Lease
other_lease = record {
  target = "web-1";
  proposal_id = "p3";
  goal_id = "g3";
  id = "p3";
  expires_at = 350;
}

-- Another proposal has taken another target in between.
abbrev both_taken : LeaseManager
both_taken = record taken {
  leases = record { entries = ("web-0", first) ∷ ("web-1", other_lease) ∷ [] };
}

other-acquired : acquire taken 50 "g3" "p3" ("web-1" ∷ []) ≡ ok ("p3", both_taken)
unfolding acquire Map.get Map.put
other-acquired = refl

p1_not_p3 : ◌≢◌ {A = String} "p1" "p3"
p1_not_p3 e = absurd (differ ((eq_iff "p1" "p3").1 e))

free-IsDistinct : is_distinct free.leases ≡ true
unfolding is_distinct Map.empty
free-IsDistinct = refl

meanwhile : Others first taken (release both_taken "p3")
meanwhile =
    Others.releases "p3"
      (Others.acquires both_taken 50 "g3" "p3" "p3" ("web-1" ∷ []) Others.start p1_not_p3
        (ground arith) other-acquired)
      refl

acquire-excludes_example :
    (acquire (release both_taken "p3") 100 "g2" "p2" ("web-1" ∷ "web-0" ∷ [])
      ≡ err "target %q is leased by proposal %q until %s")
    × (holder (release both_taken "p3") 100 "web-0" ≡ some first)
acquire-excludes_example =
    acquire-excludes free taken (release both_taken "p3") 10 100 "g1" "g2" "p1" "p2" "p1" "web-0"
      ("web-0" ∷ []) ("web-1" ∷ "web-0" ∷ []) free-IsDistinct taken-acquired refl meanwhile refl
      p1_not_p2 in_time
