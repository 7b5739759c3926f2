-- ===== src/Node/Queue/Consistent.antt =====
-- node/queue.go: the invariant of a queue, and the changes that keep it.
use a4s.Prelude.{
  ℕ, ◌≤◌, ◌≡◌, refl, sym, ◌∙◌, subst, Bool, true, false, ◌&&◌, ◌||◌, not, Option, none, some, List,
  [], ◌∷◌, ◌++◌, String, ◌==◌, eq_iff, eq_refl, arith, is_some, if◌then◌else◌, inl, inr, Bool-cases,
}
use a4s.Prelude.Map
use a4s.Prelude.Map.{Map, get-put, get-delete}
use a4s.Prelude.Map.Keys.{
  is_distinct, is_distinct-put, is_distinct-delete, is_distinct-map_values, map_values,
  get-map_values-some, is_some-map_values, get-put-some, get-delete-some,
}
use a4s.Kernel.Rules.{mem}
use a4s.Node.Queue.{Queue, QueueTask, new_queue, held_by, let_go, remove_order, attempt_limit}

-- Every id stands once.
abbrev pub once : List String → Bool
once [] = true
once (x ∷ xs) = not (mem x xs) && once xs

-- The order lists the keys of the tasks, each once; a task is stored under its id; no task has been
-- handed out more often than the limit allows.
pub record Consistent (q : Queue) : Type 0 where
  pub keys : (id : String) → mem id q.order ≡ is_some (Map.get q.tasks id)
  pub listed_once : once q.order ≡ true
  pub no_blank : mem "" q.order ≡ false
  pub distinct : is_distinct q.tasks ≡ true
  pub named : (id : String) (t : QueueTask) → Map.get q.tasks id ≡ some t → t.id ≡ id
  pub bounded :
      (id : String) (t : QueueTask) → Map.get q.tasks id ≡ some t → t.attempts ≤ attempt_limit q

-- A task that a key may hold.
abbrev pub Fine : ℕ → String → QueueTask → Type 0
Fine limit id t = (t.id ≡ id) × (t.attempts ≤ limit)

pub mem-snoc : (xs : List String) (x y : String) → mem y (xs ++ x ∷ []) ≡ mem y xs || x == y
mem-snoc [] x y = ground arith
mem-snoc (z ∷ xs) x y = ground (arith, mem-snoc xs x y)

once-snoc :
    (xs : List String) (x : String) → once xs ≡ true → mem x xs ≡ false → once (xs ++ x ∷ []) ≡ true
once-snoc [] x h k = refl
once-snoc (z ∷ xs) x h k = ground (arith, mem-snoc xs x z, once-snoc xs x, eq_iff z x, eq_iff x z)

mem-remove_order :
    (xs : List String) (x y : String)
    → once xs ≡ true
    → mem y (remove_order x xs) ≡ (if x == y then false else mem y xs)
unfolding remove_order
mem-remove_order [] x y h = ground arith
mem-remove_order (z ∷ xs) x y h =
    ground (arith, mem-remove_order xs x y, eq_iff z x, eq_iff z y, eq_iff x y)

once-remove_order :
    (xs : List String) (x : String) → once xs ≡ true → once (remove_order x xs) ≡ true
unfolding remove_order
once-remove_order [] x h = refl
once-remove_order (z ∷ xs) x h =
    ground (arith, once-remove_order xs x, mem-remove_order xs x z, eq_iff z x, eq_iff x z)

is_some-put :
    (m : Map QueueTask) (id k : String) (t : QueueTask)
    → is_some (Map.get m id) ≡ true
    → is_some (Map.get m k) ≡ is_some (Map.get (Map.put m id t) k)
is_some-put m id k t h = rw (get-put m id k t) (elim (Bool-cases (id == k)) [
  | inl e ↦ rw (sym ((eq_iff id k).0 e), h, eq_refl id) refl
  | inr e ↦ rw e refl
])

never : (b : Bool) → (if b then false else false) ≡ false
never true = refl
never false = refl

deleted :
    (o : Option QueueTask) {b : Bool} (here : Bool)
    → b ≡ is_some o
    → (if here then false else b) ≡ is_some (if here then none else o)
deleted o true h = refl
deleted o false h = h

added :
    (o : Option QueueTask) (t : QueueTask) {b : Bool} (here : Bool)
    → b ≡ is_some o
    → (b || here) ≡ is_some (if here then some t else o)
added o t {b = b} true h = ground arith
added o t {b = b} false h = ground arith

let_go-Fine :
    (limit : ℕ) (allocation id : String) (t : QueueTask)
    → Fine limit id t
    → Fine limit id (let_go allocation t)
let_go-Fine limit allocation id t h = elim (Bool-cases (held_by allocation t)) [
  | inl e ↦ rw e h
  | inr e ↦ rw e h
]

module _ (q : Queue) (c : Consistent q) where
  get-put-Fine :
      (id : String) (t : QueueTask)
      → Fine (attempt_limit q) id t
      → (k : String) (u : QueueTask) → Map.get (Map.put q.tasks id t) k ≡ some u
      → Fine (attempt_limit q) k u
  get-put-Fine id t fine k u h = elim (get-put-some q.tasks id k t u h) [
    | inl (same, is) ↦
        subst (λ i. Fine (attempt_limit q) i u) same
          (subst (λ x. Fine (attempt_limit q) id x) is fine)
    | inr (old, _) ↦ (c.named k u old, c.bounded k u old)
  ]

  pub rewrite-Consistent :
      (id : String) (t : QueueTask)
      → is_some (Map.get q.tasks id) ≡ true
      → Fine (attempt_limit q) id t
      → Consistent (record q { tasks = Map.put q.tasks id t })
  unfolding attempt_limit
  rewrite-Consistent id t there fine = record {
    keys = λ k. c.keys k ∙ is_some-put q.tasks id k t there;
    listed_once = c.listed_once;
    no_blank = c.no_blank;
    distinct = is_distinct-put q.tasks id t c.distinct;
    named = λ k u h. (get-put-Fine id t fine k u h).0;
    bounded = λ k u h. (get-put-Fine id t fine k u h).1;
  }

  let_go_all-Fine :
      (allocation k : String) (u : QueueTask)
      → Map.get (map_values (let_go allocation) q.tasks) k ≡ some u
      → Fine (attempt_limit q) k u
  let_go_all-Fine allocation k u h =
      let (t, old, is) = get-map_values-some (let_go allocation) q.tasks k u h in
      subst (λ x. Fine (attempt_limit q) k x) is
        (let_go-Fine (attempt_limit q) allocation k t (c.named k t old, c.bounded k t old))

  pub let_go-Consistent :
      (allocation : String)
      → Consistent (record q { tasks = map_values (let_go allocation) q.tasks })
  unfolding attempt_limit
  let_go-Consistent allocation = record {
    keys = λ k. c.keys k ∙ is_some-map_values (let_go allocation) q.tasks k;
    listed_once = c.listed_once;
    no_blank = c.no_blank;
    distinct = is_distinct-map_values (let_go allocation) q.tasks ∙ c.distinct;
    named = λ k u h. (let_go_all-Fine allocation k u h).0;
    bounded = λ k u h. (let_go_all-Fine allocation k u h).1;
  }

  pub ack-Consistent :
      (id : String)
      → Consistent (record q { tasks = Map.delete q.tasks id; order = remove_order id q.order })
  unfolding attempt_limit
  ack-Consistent id = record {
    keys = λ k.
        mem-remove_order q.order id k c.listed_once
        ∙ rw (get-delete q.tasks id k) (deleted (Map.get q.tasks k) (id == k) (c.keys k));
    listed_once = once-remove_order q.order id c.listed_once;
    no_blank = mem-remove_order q.order id "" c.listed_once ∙ rw c.no_blank (never (id == ""));
    distinct = is_distinct-delete q.tasks id c.distinct;
    named = λ k u h. c.named k u (get-delete-some q.tasks id k u h).0;
    bounded = λ k u h. c.bounded k u (get-delete-some q.tasks id k u h).0;
  }

  pub enqueue-Consistent :
      (id : String) (t : QueueTask)
      → is_some (Map.get q.tasks id) ≡ false
      → (id == "") ≡ false
      → Fine (attempt_limit q) id t
      → Consistent (record q { tasks = Map.put q.tasks id t; order = q.order ++ id ∷ [] })
  unfolding attempt_limit
  enqueue-Consistent id t new named fine = record {
    keys = λ k.
        mem-snoc q.order id k
        ∙ rw (get-put q.tasks id k t) (added (Map.get q.tasks k) t (id == k) (c.keys k));
    listed_once = once-snoc q.order id c.listed_once (c.keys id ∙ new);
    no_blank = mem-snoc q.order id "" ∙ rw (c.no_blank, named) refl;
    distinct = is_distinct-put q.tasks id t c.distinct;
    named = λ k u h. (get-put-Fine id t fine k u h).0;
    bounded = λ k u h. (get-put-Fine id t fine k u h).1;
  }

pub new_queue-Consistent : (name workload : String) → Consistent (new_queue name workload)
unfolding Map.get new_queue Map.empty is_distinct
new_queue-Consistent name workload = record {
  keys = λ id. refl;
  listed_once = refl;
  no_blank = refl;
  distinct = refl;
  named = λ id t h. cc;
  bounded = λ id t h. cc;
}
