-- ===== src/Node/Queue/Holds.antt =====
-- node/queue.go: what the holder of a task can rely on.
use a4s.Prelude.{
  true-false, ◌<◌, ◌≡◌, refl, sym, ◌∙◌, ap, Bool, true, false, not, Option, none, some, String,
  ◌==◌, eq_iff, arith, Result, is_some, inl, inr, Bool-cases, Option-cases,
}
use a4s.Prelude.Map
use a4s.Prelude.Map.{Map, get-put, get-delete}
use a4s.Prelude.Map.Keys.{get-map_values}
use a4s.Types.World.{Time}
use a4s.Node.Queue.{
  Queue, QueueTask, TaskClaim, claim, enqueue, ack, requeue, release_allocation, first_waiting,
  waits, available, held_by, let_go,
}
use a4s.Node.Queue.Steps.{first_waiting-found}

-- Operations before a time, of which none but `Enqueue` and `Claim` is by the holder.
pub data Others (holder : String) (limit : Time) (q : Queue) : Queue → Type 0 where
  start : Others holder limit q q
  enqueues :
      {r : Queue} (now : Time) (saved : Result (Unit {0})) (id payload : String)
      → Others holder limit q r
      → Others holder limit q (enqueue r now saved id payload).0
  claims :
      {r : Queue} (now : Time) (saved : Result (Unit {0})) (allocation : String)
      → Others holder limit q r
      → now < limit
      → Others holder limit q (claim r now saved allocation).0
  acks :
      {r : Queue} (saved : Result (Unit {0})) (allocation id : String)
      → Others holder limit q r
      → (allocation == holder) ≡ false
      → Others holder limit q (ack r saved allocation id).0
  requeues :
      {r : Queue} (saved : Result (Unit {0})) (allocation id : String)
      → Others holder limit q r
      → (allocation == holder) ≡ false
      → Others holder limit q (requeue r saved allocation id).0
  releases :
      {r : Queue} (saved : Result (Unit {0})) (allocation : String)
      → Others holder limit q r
      → (allocation == holder) ≡ false
      → Others holder limit q (release_allocation r saved allocation).0

other_key :
    (m : Map QueueTask) (j k : String) (t u : QueueTask)
    → Map.get m k ≡ some t
    → (j == k) ≡ false
    → Map.get (Map.put m j u) k ≡ some t
other_key m j k t u h e = get-put m j k u ∙ rw (e, h) refl

-- Keys whose tasks a test tells apart.
keys_differ :
    (m : Map QueueTask) (test : Option QueueTask → Bool) (j k : String)
    → test (Map.get m j) ≡ true
    → test (Map.get m k) ≡ false
    → (j == k) ≡ false
keys_differ m test j k h n = elim (Bool-cases (j == k)) [
  | inl e ↦ absurd (true-false (sym h ∙ ap (λ i. test (Map.get m i)) ((eq_iff j k).0 e) ∙ n))
  | inr e ↦ e
]

abbrev passes : (QueueTask → Bool) → Option QueueTask → Bool
passes p none = false
passes p (some t) = p t

module _ (q : Queue) (id : String) (t : QueueTask) (c : TaskClaim) (is : t.claim ≡ some c) where
  not_held : (a : String) → (a == c.allocation) ≡ false → held_by a t ≡ false
  not_held a h = rw is (ground (arith, eq_iff a c.allocation, eq_iff c.allocation a))

  busy : (now : Time) → now < c.expires_at → waits q now t ≡ false
  unfolding waits available
  busy now h = rw is (ground arith)

  enqueue-keeps :
      (now : Time) (saved : Result (Unit {0})) (k payload : String)
      → Map.get q.tasks id ≡ some t
      → Map.get (enqueue q now saved k payload).0.tasks id ≡ some t
  unfolding enqueue
  enqueue-keeps now saved k payload h = elim (Bool-cases (k == "")) [
    | inl e ↦ rw e h
    | inr e ↦ elim (Bool-cases (is_some (Map.get q.tasks k))) [
      | inl there ↦ rw (e, there) h
      | inr new ↦
          rw (e, new)
            (other_key q.tasks k id t _ h
              (keys_differ q.tasks (λ o. not (is_some o)) k id (rw new refl) (rw h refl)))
    ]
  ]

  claim-keeps :
      (now : Time) (saved : Result (Unit {0})) (a : String)
      → Map.get q.tasks id ≡ some t
      → now < c.expires_at
      → Map.get (claim q now saved a).0.tasks id ≡ some t
  unfolding claim
  claim-keeps now saved a h soon = elim (Bool-cases (a == "")) [
    | inl e ↦ rw e h
    | inr e ↦ elim (Option-cases (first_waiting q now q.order)) [
      | inl n ↦ rw (e, n) h
      | inr ((k, u), f) ↦
          let (found, ready) = first_waiting-found q.order q now k u f in
          rw (e, f)
            (other_key q.tasks k id t _ h (
              keys_differ q.tasks (passes (waits q now)) k id (rw found ready)
                (rw h (busy now soon))))
    ]
  ]

  ack-keeps :
      (saved : Result (Unit {0})) (a k : String)
      → Map.get q.tasks id ≡ some t
      → (a == c.allocation) ≡ false
      → Map.get (ack q saved a k).0.tasks id ≡ some t
  unfolding ack
  ack-keeps saved a k h other = elim (Option-cases (Map.get q.tasks k)) [
    | inl n ↦ rw (n, ack) h
    | inr (u, f) ↦ elim (Bool-cases (held_by a u)) [
      | inl e ↦
          rw (f, ack, e)
            (get-delete q.tasks k id
              ∙ rw
                  (
                    keys_differ q.tasks (passes (held_by a)) k id (rw f e)
                        (rw h (not_held a other)),
                    h,
                  )
                  refl)
      | inr e ↦ rw (f, ack, e) h
    ]
  ]

  requeue-keeps :
      (saved : Result (Unit {0})) (a k : String)
      → Map.get q.tasks id ≡ some t
      → (a == c.allocation) ≡ false
      → Map.get (requeue q saved a k).0.tasks id ≡ some t
  unfolding requeue
  requeue-keeps saved a k h other = elim (Option-cases (Map.get q.tasks k)) [
    | inl n ↦ rw (n, requeue) h
    | inr (u, f) ↦ elim (Bool-cases (held_by a u)) [
      | inl e ↦
          rw (f, requeue, e)
            (other_key q.tasks k id t _ h
              (keys_differ q.tasks (passes (held_by a)) k id (rw f e) (rw h (not_held a other))))
      | inr e ↦ rw (f, requeue, e) h
    ]
  ]

  release-keeps :
      (saved : Result (Unit {0})) (a : String)
      → Map.get q.tasks id ≡ some t
      → (a == c.allocation) ≡ false
      → Map.get (release_allocation q saved a).0.tasks id ≡ some t
  unfolding release_allocation
  release-keeps saved a h other =
      get-map_values (let_go a) q.tasks id ∙ rw (h, not_held a other) refl

-- While its lease stands, a task stays with its holder exactly as it was handed out, whatever the
-- other instances do: no claim hands it out a second time, and no other instance acknowledges,
-- requeues or releases it.
pub Others-keeps :
    {holder : String} {limit : Time} {q r : Queue} (id : String) (t : QueueTask)
    → Others holder limit q r
    → t.claim ≡ some (record { allocation = holder; expires_at = limit })
    → Map.get q.tasks id ≡ some t
    → Map.get r.tasks id ≡ some t
Others-keeps id t start is h = h
Others-keeps id t (enqueues now saved k payload o) is h =
    enqueue-keeps _ id t _ is now saved k payload (Others-keeps id t o is h)
Others-keeps id t (claims now saved a o soon) is h =
    claim-keeps _ id t _ is now saved a (Others-keeps id t o is h) soon
Others-keeps id t (acks saved a k o other) is h =
    ack-keeps _ id t _ is saved a k (Others-keeps id t o is h) other
Others-keeps id t (requeues saved a k o other) is h =
    requeue-keeps _ id t _ is saved a k (Others-keeps id t o is h) other
Others-keeps id t (releases saved a o other) is h =
    release-keeps _ id t _ is saved a (Others-keeps id t o is h) other
