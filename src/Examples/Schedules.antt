-- ===== src/Examples/Schedules.antt =====
-- The theorems on schedules and canaries, applied.
use a4s.Prelude.{ℕ, ◌+◌, ◌*◌, ◌-◌, is_some, ◌≡◌, refl, List, [], ◌∷◌, arith, pos}
use a4s.Prelude.Map
use a4s.Types.World.{Time}
use a4s.Schedule.{CronSchedule, Search, minute, next, in_time, due, date_of, four_years_on}
use a4s.Schedule.First.{first_match, least_of, slot_of, next-first_match, due-first_match}
use a4s.Canary.{Endpoint, count_endpoints, share_across, split_weights}
use a4s.Canary.Share.{total_weight, split_weights-total}

abbrev months : List ℕ
months = 1 ∷ 2 ∷ 3 ∷ 4 ∷ 5 ∷ 6 ∷ 7 ∷ 8 ∷ 9 ∷ 10 ∷ 11 ∷ 12 ∷ []

-- `0 0 29 2 *`
abbrev leap_day : CronSchedule
leap_day = record {
  minutes = 0 ∷ [];
  hours = 0 ∷ [];
  days = 29 ∷ [];
  months = 2 ∷ [];
  weekdays = 0 ∷ 1 ∷ 2 ∷ 3 ∷ 4 ∷ 5 ∷ 6 ∷ [];
}

-- `5 0 1,15 * *`
abbrev twice_a_month : CronSchedule
twice_a_month = record {
  minutes = 5 ∷ [];
  hours = 0 ∷ [];
  days = 1 ∷ 15 ∷ [];
  months = months;
  weekdays = 0 ∷ 1 ∷ 2 ∷ 3 ∷ 4 ∷ 5 ∷ 6 ∷ [];
}

-- Day 738000 is July 30, 2021.
date_sample : date_of 738000 ≡ (7, 30)
unfolding date_of
date_sample = refl

-- Ten past midnight on January 1 of year 1.
abbrev start_time : Time
start_time = 10 * minute

abbrev slot : ℕ
slot = 14 * 1440 + 5

slot_found : next twice_a_month start_time ≡ Search.slot (slot * minute)
unfolding next
slot_found = refl

next-first_match_example :
    next leap_day start_time ≡ in_time (slot_of (first_match leap_day 11 (four_years_on 11 - 11)))
next-first_match_example = next-first_match leap_day start_time

due-first_match_example :
    due twice_a_month (20000 * minute) start_time
    ≡ is_some (first_match twice_a_month 11 (least_of (four_years_on 11 - 11) 19990))
due-first_match_example = due-first_match twice_a_month (20000 * minute) start_time (ground arith)

abbrev endpoint : Endpoint
endpoint = record { allocation = "web-0"; node = "n1"; address = "10.0.0.1"; port = pos 80 }

one : count_endpoints (endpoint ∷ []) ≡ 1
unfolding count_endpoints
one = refl

two : count_endpoints (endpoint ∷ endpoint ∷ []) ≡ 2
unfolding count_endpoints
two = refl

split_weights-total_example :
    (total_weight (split_weights Map.empty 25 (endpoint ∷ []) (endpoint ∷ endpoint ∷ [])) ≡ 100)
    × (total_weight (share_across Map.empty (endpoint ∷ []) 25) ≡ 25)
split_weights-total_example =
    split_weights-total Map.empty 25 (endpoint ∷ []) (endpoint ∷ endpoint ∷ [])
      (ground (arith, one)) (ground (arith, two)) (ground (arith, one)) (ground (arith, two))
