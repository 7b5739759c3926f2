-- ===== src/Lease/Exclusion.antt =====
-- control/lease.go: what `Acquire` grants and refuses.
use a4s.Prelude.{
  ◌+◌, ◌<◌, ◌≡◌, ◌≢◌, refl, sym, ◌∙◌, ap, subst, true, false, ◌==◌, some, List, [], ◌∷◌, String,
  eq_iff, arith, if◌then◌else◌, ok, err, err_ok, Bool-cases, inl, inr, lt→ltb, ok-injective,
}
use a4s.Prelude.Map
use a4s.Prelude.Map.{Map, get-put}
use a4s.Types.World.{Time, before}
use a4s.Kernel.Rules.{mem}
use a4s.Lease.{
  Lease, LeaseManager, is_blocked, any_blocked, new_lease, grant_all, acquire, release, holder,
}
use a4s.Lease.Release.{release-keeps, release-IsDistinct}
use a4s.Prelude.Map.Keys.{is_distinct, is_distinct-put}

grant_all-get :
    (lease : String → Lease) (ts : List String) (leases : Map Lease) (t : String)
    → Map.get (grant_all lease leases ts) t
      ≡ (if mem t ts then some (lease t) else Map.get leases t)
unfolding grant_all
grant_all-get lease [] leases t = refl
grant_all-get lease (x ∷ ts) leases t =
    let rest = grant_all-get lease ts (Map.put leases x (lease x)) t in
    rest ∙ ground (arith, get-put leases x t (lease x), eq_iff x t)

any_blocked-mem :
    (m : LeaseManager) (now : Time) (proposal : String) (ts : List String) (t : String)
    → mem t ts ≡ true
    → is_blocked m now proposal t ≡ true
    → any_blocked m now proposal ts ≡ true
any_blocked-mem m now proposal [] t h b = cc
any_blocked-mem m now proposal (x ∷ ts) t h b =
    ground (arith, eq_iff x t, any_blocked-mem m now proposal ts t)

blocked_by :
    (m : LeaseManager) (now : Time) (q t : String) (l : Lease)
    → Map.get m.leases t ≡ some l
    → before now l.expires_at ≡ true
    → l.proposal_id ≢ q
    → is_blocked m now q t ≡ true
unfolding is_blocked
blocked_by m now q t l is live differ = rw (is, is_blocked) (ground (arith, eq_iff l.proposal_id q))

-- A successful acquisition takes every target at once and touches no other: each target is held by
-- the proposal until the time to live has passed, and the lease on anything else is as it was.
pub acquire-grants :
    (m m' : LeaseManager) (now : Time) (goal proposal id : String) (ts : List String) (t : String)
    → acquire m now goal proposal ts ≡ ok (id, m')
    → Map.get m'.leases t
      ≡ (if mem t ts then some (new_lease m now goal proposal t) else Map.get m.leases t)
unfolding acquire
acquire-grants m m' now goal proposal id ts t h =
    elim (Bool-cases (any_blocked m now proposal ts)) [
      | inl blocked ↦ absurd (err_ok (rw blocked at h))
      | inr free ↦
          let same = ap (λ r. r.1) (ok-injective (rw free at h)) in
          ap (λ x. Map.get x.leases t) (sym same)
          ∙ grant_all-get (new_lease m now goal proposal) ts m.leases t
    ]

-- A target is held by a lease.
abbrev pub Held : LeaseManager → String → Lease → Type 0
Held m t l = Map.get m.leases t ≡ some l

-- What other proposals do before the lease ends: they acquire any targets, which may be refused, and
-- leases with other ids are released.
pub data Others (l : Lease) (m : LeaseManager) : LeaseManager → Type 0 where
  start : Others l m m
  acquires :
      {m' : LeaseManager} (k : LeaseManager) (now : Time) (goal q id : String) (ts : List String)
      → Others l m m'
      → l.proposal_id ≢ q
      → now < l.expires_at
      → acquire m' now goal q ts ≡ ok (id, k)
      → Others l m k
  releases :
      {m' : LeaseManager} (id : String)
      → Others l m m'
      → (l.id == id) ≡ false
      → Others l m (release m' id)

acquire-refused :
    (m : LeaseManager) (now : Time) (goal q t : String) (ts : List String) (l : Lease)
    → Held m t l
    → mem t ts ≡ true
    → l.proposal_id ≢ q
    → now < l.expires_at
    → acquire m now goal q ts ≡ err "target %q is leased by proposal %q until %s"
unfolding acquire
acquire-refused m now goal q t ts l held wanted differ live =
    rw
      (any_blocked-mem m now q ts t wanted
        (blocked_by m now q t l held (lt→ltb now l.expires_at live) differ))
      refl

acquire-Held :
    (m k : LeaseManager) (now : Time) (goal q id t : String) (ts : List String) (l : Lease)
    → Held m t l
    → l.proposal_id ≢ q
    → now < l.expires_at
    → acquire m now goal q ts ≡ ok (id, k)
    → Held k t l
acquire-Held m k now goal q id t ts l held differ live h = elim (Bool-cases (mem t ts)) [
  | inl wanted ↦
      absurd (err_ok (sym (acquire-refused m now goal q t ts l held wanted differ live) ∙ h))
  | inr other ↦ acquire-grants m k now goal q id ts t h ∙ rw other held
]

grant_all-IsDistinct :
    (lease : String → Lease) (leases : Map Lease) (ts : List String)
    → is_distinct leases ≡ true
    → is_distinct (grant_all lease leases ts) ≡ true
unfolding grant_all
grant_all-IsDistinct lease leases [] d = d
grant_all-IsDistinct lease leases (t ∷ ts) d =
    grant_all-IsDistinct lease (Map.put leases t (lease t)) ts
      (is_distinct-put leases t (lease t) d)

acquire-IsDistinct :
    (m k : LeaseManager) (now : Time) (goal q id : String) (ts : List String)
    → acquire m now goal q ts ≡ ok (id, k)
    → is_distinct m.leases ≡ true
    → is_distinct k.leases ≡ true
unfolding acquire
acquire-IsDistinct m k now goal q id ts h d = elim (Bool-cases (any_blocked m now q ts)) [
  | inl blocked ↦ absurd (err_ok (rw blocked at h))
  | inr free ↦
      subst (λ x. is_distinct x.leases ≡ true) (ap (λ r. r.1) (ok-injective (rw free at h)))
        (grant_all-IsDistinct (new_lease m now goal q) m.leases ts d)
]

Others-IsDistinct :
    (l : Lease) {m m' : LeaseManager}
    → Others l m m'
    → is_distinct m.leases ≡ true
    → is_distinct m'.leases ≡ true
Others-IsDistinct l Others.start d = d
Others-IsDistinct l (Others.acquires {m' = m'} k now goal q id ts o differ live h) d =
    acquire-IsDistinct m' k now goal q id ts h (Others-IsDistinct l o d)
Others-IsDistinct l (Others.releases {m' = m'} id o other) d =
    release-IsDistinct m' id (Others-IsDistinct l o d)

Others-Held :
    (t : String) (l : Lease) {m m' : LeaseManager}
    → Others l m m'
    → is_distinct m.leases ≡ true
    → Held m t l
    → Held m' t l
Others-Held t l Others.start d held = held
Others-Held t l (Others.acquires {m' = m'} k now goal q id ts o differ live h) d held =
    acquire-Held m' k now goal q id t ts l (Others-Held t l o d held) differ live h
Others-Held t l (Others.releases {m' = m'} id o other) d held =
    release-keeps m' id t l (Others-IsDistinct l o d) (Others-Held t l o d held) other

-- From the moment a proposal has acquired a target until its lease expires or is released, whatever
-- other proposals acquire and release in between, every other proposal that wants the target is
-- refused, and the target is still under the same lease.
pub acquire-excludes :
    (m m' k : LeaseManager) (now later : Time) (goal other_goal p q id t : String)
    (ts us : List String)
    → is_distinct m.leases ≡ true
    → acquire m now goal p ts ≡ ok (id, m')
    → mem t ts ≡ true
    → Others (new_lease m now goal p t) m' k
    → mem t us ≡ true
    → p ≢ q
    → later < now + m.ttl
    → (acquire k later other_goal q us ≡ err "target %q is leased by proposal %q until %s")
      × (holder k later t ≡ some (new_lease m now goal p t))
unfolding holder
acquire-excludes m m' k now later goal other_goal p q id t ts us d h mine others wanted differ
      live =
    let l = new_lease m now goal p t in
    let held =
      Others-Held t l others (acquire-IsDistinct m m' now goal p id ts h d)
        (acquire-grants m m' now goal p id ts t h ∙ rw mine refl) in
    (
      acquire-refused k later other_goal q t us l held wanted differ live,
      rw (holder, held, lt→ltb later (now + m.ttl) live) refl,
    )
