-- ===== src/Schedule/First.antt =====
-- control/schedule.go: what `Next` and `Due` find.
use a4s.Prelude.{
  ℕ, zero, suc, ◌+◌, ◌*◌, ◌-◌, ◌/◌, ◌%◌, ◌≤◌, ◌<◌, ◌≡◌, refl, sym, ◌∙◌, ap, subst, Bool, true,
  false, not, ◌||◌, Option, none, some, if◌then◌else◌, ltb, leb, is_some, arith, Bool-cases, inl,
  inr, ltb→lt, ltb-false→le, leb→le,
}
use a4s.Types.World.{Time, is_zero_time}
use a4s.Schedule.{
  CronSchedule, matches_minute, matches_date, contains, day_minutes, minute, advance, next_from,
  next, due, four_years_on, Search, in_time,
}

-- No minute from one to another matches.
abbrev Silent : CronSchedule → (from until : ℕ) → Type 0
Silent c from until = (k : ℕ) → from ≤ k → k < until → matches_minute c k ≡ false

either : (b : Bool) → (if b then false else false) ≡ false
either true = refl
either false = refl

-- A day whose date does not match has no minute that does.
skipped_day :
    (c : CronSchedule) (m k : ℕ)
    → matches_date c (m / day_minutes) ≡ false
    → m ≤ k
    → k < (m / day_minutes + 1) * day_minutes
    → matches_minute c k ≡ false
unfolding matches_minute
skipped_day c m k h from before =
    let same : k / day_minutes ≡ m / day_minutes = omega arith in
    rw (same, h)
      (either (not (contains c.minutes (k % 60)) || not (contains c.hours (k % day_minutes / 60))))

advance-moves : (c : CronSchedule) (m : ℕ) → suc m ≤ advance c m
advance-moves c m = elim (Bool-cases (matches_date c (m / day_minutes))) [
  | inl e ↦ rw e (omega arith)
  | inr e ↦ rw e (omega arith)
]

-- Nothing that `advance` passes over matches.
advance-Silent :
    (c : CronSchedule) (m k : ℕ)
    → matches_minute c m ≡ false
    → m ≤ k
    → k < advance c m
    → matches_minute c k ≡ false
advance-Silent c m k h from before = elim (Bool-cases (matches_date c (m / day_minutes))) [
  | inl e ↦ let same : m ≡ k = omega (arith, rw e at before) in ap (matches_minute c) (sym same) ∙ h
  | inr e ↦ skipped_day c m k e from (rw e at before)
]

abbrev pub least_of : ℕ → ℕ → ℕ
least_of a b = if leb a b then a else b

-- The first minute that matches of `count` minutes from one on, looked for minute by minute.
unfoldable pub first_match : CronSchedule → (m count : ℕ) → Option ℕ
first_match c m zero = none
first_match c m (suc count) =
    let rest = first_match c (suc m) count in if matches_minute c m then some m else rest

first_match-none :
    (c : CronSchedule) (m count : ℕ) → Silent c m (m + count) → first_match c m count ≡ none
unfolding first_match
first_match-none c m zero silent = refl
first_match-none c m (suc count) silent =
    rw (silent m (omega arith) (omega arith))
      (first_match-none c (suc m) count (λ k from before. silent k (omega arith) (omega arith)))

first_match-some :
    (c : CronSchedule) (m count t : ℕ)
    → m ≤ t
    → t < m + count
    → matches_minute c t ≡ true
    → Silent c m t
    → first_match c m count ≡ some t
unfolding first_match
first_match-some c m zero t from before match silent = absurd (omega arith)
first_match-some c m (suc count) t from before match silent = elim (Bool-cases (ltb m t)) [
  | inl e ↦ rw (silent m (omega arith) (ltb→lt m t e)) (
      first_match-some c (suc m) count t (omega (arith, ltb→lt m t e)) (omega arith) match
        (λ k from' before'. silent k (omega arith) before'))
  | inr e ↦
      let same : t ≡ m = omega (arith, from, ltb-false→le m t e) in
      rw (subst (λ x. matches_minute c x ≡ true) same match) (ap some (sym same))
]

-- What a search that has ended says: the first match before the limit, if there is one.
abbrev Finds : CronSchedule → (limit m : ℕ) → Search → Type 0
Finds c limit m Search.no_slot = Silent c m limit
Finds c limit m (Search.slot t) = (m ≤ t) × (t < limit) × (matches_minute c t ≡ true) × Silent c m t
Finds c limit m Search.unfinished = ⊥

advance-Finds :
    (c : CronSchedule) (limit m : ℕ) (answer : Search)
    → matches_minute c m ≡ false
    → Finds c limit (advance c m) answer
    → Finds c limit m answer
advance-Finds c limit m Search.unfinished h never = never
advance-Finds c limit m Search.no_slot h silent = λ k from before.
    elim (Bool-cases (ltb k (advance c m))) [
      | inl e ↦ advance-Silent c m k h from (ltb→lt k (advance c m) e)
      | inr e ↦ silent k (ltb-false→le k (advance c m) e) before
    ]
advance-Finds c limit m (Search.slot t) h (later, soon, match, silent) = (
  omega (arith, later, advance-moves c m),
  soon,
  match,
  λ k from before. elim (Bool-cases (ltb k (advance c m))) [
    | inl e ↦ advance-Silent c m k h from (ltb→lt k (advance c m) e)
    | inr e ↦ silent k (ltb-false→le k (advance c m) e) before
  ],
)

-- More rounds than there are minutes up to the limit are enough.
next_from-Finds :
    (rounds : ℕ) (c : CronSchedule) (limit m : ℕ)
    → limit - m < rounds
    → Finds c limit m (next_from rounds c limit m)
unfolding next_from
next_from-Finds zero c limit m enough = omega arith
next_from-Finds (suc rounds) c limit m enough = elim (Bool-cases (ltb m limit)) [
  | inr e ↦
      rw (next_from, e)
        (λ k from before. absurd (omega (arith, from, before, ltb-false→le m limit e)))
  | inl e ↦ elim (Bool-cases (matches_minute c m)) [
    | inl f ↦
        rw (next_from, e, f)
          (omega arith, ltb→lt m limit e, f, λ k from before. absurd (omega (arith, from, before)))
    | inr f ↦
        rw (next_from, e, f)
          (advance-Finds c limit m (next_from rounds c limit (advance c m)) f (
            next_from-Finds rounds c limit (advance c m)
              (omega (arith, advance-moves c m, ltb→lt m limit e, enough))))
  ]
]

abbrev pub slot_of : Option ℕ → Search
slot_of none = Search.no_slot
slot_of (some m) = Search.slot m

Finds-first_match :
    (c : CronSchedule) (limit m : ℕ) (answer : Search)
    → Finds c limit m answer
    → answer ≡ slot_of (first_match c m (limit - m))
Finds-first_match c limit m Search.unfinished never = absurd never
Finds-first_match c limit m Search.no_slot silent =
    ap slot_of
      (sym (first_match-none c m (limit - m) (λ k from before. silent k from (omega arith))))
Finds-first_match c limit m (Search.slot t) (from, before, match, silent) =
    ap slot_of (sym (first_match-some c m (limit - m) t from (omega arith) match silent))

search-first_match :
    (c : CronSchedule) (m limit : ℕ)
    → next_from (limit - m + 1) c limit m ≡ slot_of (first_match c m (limit - m))
search-first_match c m limit =
    Finds-first_match c limit m _ (next_from-Finds (limit - m + 1) c limit m (omega arith))

-- `Next` always ends, and its answer is that of a search which looks at every minute of the four
-- years after the one given: the first that matches, and none only if none does.
pub next-first_match :
    (c : CronSchedule) (after : Time)
    → let m = after / minute + 1 in
      next c after ≡ in_time (slot_of (first_match c m (four_years_on m - m)))
unfolding next
next-first_match c after =
    let m = after / minute + 1 in ap in_time (search-first_match c m (four_years_on m))

not_zero : (t : Time) → 0 < t → is_zero_time t ≡ false
not_zero t h = ground arith

abbrev has_come : Search → (now : ℕ) → Bool
has_come (Search.slot t) now = leb t now
has_come _ now = false

leb-false→lt : (a b : ℕ) → leb a b ≡ false → b < a
leb-false→lt a b h = ground arith

least_of-bounds : (a b : ℕ) → (least_of a b ≤ a) × (least_of a b ≤ b)
least_of-bounds a b = elim (Bool-cases (leb a b)) [
  | inl e ↦ rw e (omega arith, leb→le a b e)
  | inr e ↦ rw e (omega (arith, leb-false→lt a b e), omega arith)
]

least_of-below : (a b n : ℕ) → n < a → n < b → n < least_of a b
least_of-below a b n h k = elim (Bool-cases (leb a b)) [ inl e ↦ rw e h | inr e ↦ rw e k ]

-- A search finds a minute that has come exactly when there is one up to now.
Finds-within :
    (c : CronSchedule) (limit m now : ℕ) (answer : Search)
    → Finds c limit m answer
    → has_come answer now ≡ is_some (first_match c m (least_of (limit - m) (now + 1 - m)))
Finds-within c limit m now Search.unfinished never = absurd never
Finds-within c limit m now Search.no_slot silent = ap is_some (
    sym (
      first_match-none c m (least_of (limit - m) (now + 1 - m)) (λ k from before.
        silent k from (omega (arith, before, least_of-bounds (limit - m) (now + 1 - m))))))
Finds-within c limit m now (Search.slot t) (from, before, match, silent) =
    elim (Bool-cases (leb t now)) [
      | inl e ↦
          e
          ∙ ap is_some (
              sym (
                first_match-some c m (least_of (limit - m) (now + 1 - m)) t from
                  (omega (
                    arith,
                    from,
                    least_of-below (limit - m) (now + 1 - m) (t - m) (omega arith)
                        (omega (arith, leb→le t now e)),
                  ))
                  match silent))
      | inr e ↦
          e
          ∙ ap is_some (
              sym (
                first_match-none c m (least_of (limit - m) (now + 1 - m)) (λ k low high.
                  silent k low (
                    omega (
                      arith,
                      low,
                      high,
                      leb-false→lt t now e,
                      least_of-bounds (limit - m) (now + 1 - m),
                    )))))
    ]

leb-times : (t n : ℕ) → leb (t * minute) (n * minute) ≡ leb t n
leb-times t n = ground arith

due-has_come :
    (answer : Search) (n : ℕ)
    → (elim (in_time answer) as (λ _. Bool) [ Search.slot t ↦ leb t (n * minute) | _ ↦ false ])
      ≡ has_come answer n
due-has_come (Search.slot t) n = leb-times t n
due-has_come Search.no_slot n = refl
due-has_come Search.unfinished n = refl

-- A run is due exactly when a minute that matches has come since the last one, of the four years
-- after it.
pub due-first_match :
    (c : CronSchedule) (now last_run : Time)
    → 0 < last_run
    → let m = last_run / minute + 1 in
      due c now last_run
      ≡ is_some (first_match c m (least_of (four_years_on m - m) (now / minute + 1 - m)))
unfolding due next
due-first_match c now last_run ran =
    let m = last_run / minute + 1 in
    rw (due, not_zero last_run ran) (due-has_come _ (now / minute))
    ∙ Finds-within c (four_years_on m) m (now / minute) _
        (next_from-Finds (four_years_on m - m + 1) c (four_years_on m) m (omega arith))
