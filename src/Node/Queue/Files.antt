-- ===== src/Node/Queue/Files.antt =====
-- node/queue.go: the file that `persist` writes and `load` reads.
use a4s.Prelude.{
  ◌≡◌, refl, sym, ◌∙◌, ap, Bool, true, false, Option, none, some, String, ◌==◌, Result, ok, is_some,
  is_some→some, append_nil, snoc_append, List, [], ◌∷◌, ◌++◌, eq_iff, eq_refl, arith, if◌then◌else◌,
  inl, inr, Bool-cases,
}
use a4s.Prelude.Map
use a4s.Prelude.Map.{Map, get-put, get-empty}
use a4s.Kernel.Rules.{mem}
use a4s.Node.Queue.{Queue, QueueTask, load, lines_of, new_queue}
use a4s.Node.Queue.Consistent.{Consistent, once}

-- A queue that was read: the order is `order`, and the tasks are those of `tasks` that it lists, over
-- those of `base`.
record Reads (tasks base : Map QueueTask) (order ids : List String) (r : Queue) : Type 0 where
  order_is : r.order ≡ order
  tasks_are :
      (k : String) → Map.get r.tasks k ≡ (if mem k ids then Map.get tasks k else Map.get base k)

lines_of-cons :
    (marshal : QueueTask → String) (tasks : Map QueueTask) (x : String) (xs : List String)
    (t : QueueTask)
    → Map.get tasks x ≡ some t
    → lines_of marshal tasks (x ∷ xs) ≡ marshal t ∷ lines_of marshal tasks xs
unfolding lines_of
lines_of-cons marshal tasks x xs t h = rw (lines_of, h) refl

abbrev added : Queue → String → QueueTask → Queue
added q x t = record q { tasks = Map.put q.tasks x t; order = q.order ++ x ∷ [] }

load-cons :
    (unmarshal : String → Result QueueTask) (q : Queue) (line : String) (t : QueueTask)
    (lines : List String)
    → unmarshal line ≡ ok t
    → (t.id == "") ≡ false
    → Map.get q.tasks t.id ≡ none
    → load unmarshal q (line ∷ lines) ≡ load unmarshal (added q t.id t) lines
unfolding load
load-cons unmarshal q line t lines read named new = rw (load, read, named, new) refl

load-added :
    (unmarshal : String → Result QueueTask) (q : Queue) (x line : String) (t : QueueTask)
    (lines : List String)
    → unmarshal line ≡ ok t
    → t.id ≡ x
    → (x == "") ≡ false
    → Map.get q.tasks x ≡ none
    → load unmarshal q (line ∷ lines) ≡ load unmarshal (added q x t) lines
load-added unmarshal q x line t lines read is named new =
    load-cons unmarshal q line t lines read (rw is named) (rw is new)
    ∙ ap (λ i. load unmarshal (added q i t) lines) is

apart : (x k : String) (xs : List String) → mem x xs ≡ false → mem k xs ≡ true → (x == k) ≡ false
apart x k xs out m = elim (Bool-cases (x == k)) [
  | inl e ↦ cc (out, m, (eq_iff x k).0 e)
  | inr e ↦ e
]

-- Tasks that can be written and read back: each id names a task, under its own id, once.
record Listed (tasks base : Map QueueTask) (ids : List String) : Type 0 where
  there : (k : String) → mem k ids ≡ true → is_some (Map.get tasks k) ≡ true
  named : (k : String) (t : QueueTask) → Map.get tasks k ≡ some t → t.id ≡ k
  new : (k : String) → mem k ids ≡ true → Map.get base k ≡ none
  no_blank : mem "" ids ≡ false
  single : once ids ≡ true

Listed-tail :
    (tasks base : Map QueueTask) (x : String) (xs : List String) (t : QueueTask)
    → Listed tasks base (x ∷ xs)
    → Listed tasks (Map.put base x t) xs
Listed-tail tasks base x xs t l = record {
  there = λ k m. l.there k (ground (arith, m));
  named = l.named;
  new = λ k m. get-put base x k t ∙ rw (apart x k xs out m) (l.new k (ground (arith, m)));
  no_blank = ground (arith, l.no_blank);
  single = ground (arith, l.single);
}
  where
    out : mem x xs ≡ false
    out = ground (arith, l.single)

either : {o : Option QueueTask} (b : Bool) → (if b then o else o) ≡ o
either true = refl
either false = refl

Reads-cons :
    (tasks base : Map QueueTask) (x : String) (xs order : List String) (t : QueueTask) (r : Queue)
    → Map.get tasks x ≡ some t
    → Reads tasks (Map.put base x t) ((order ++ x ∷ []) ++ xs) xs r
    → Reads tasks base (order ++ x ∷ xs) (x ∷ xs) r
Reads-cons tasks base x xs order t r held reads = record {
  order_is = reads.order_is ∙ snoc_append order x xs;
  tasks_are = λ k. reads.tasks_are k ∙ chosen k;
}
  where
    chosen :
        (k : String)
        → (if mem k xs then Map.get tasks k else Map.get (Map.put base x t) k)
          ≡ (if mem k (x ∷ xs) then Map.get tasks k else Map.get base k)
    chosen k = elim (Bool-cases (x == k)) [
      | inl e ↦ rw (get-put base x k t, e, sym ((eq_iff x k).0 e), held) (either (mem x xs))
      | inr e ↦ rw (get-put base x k t, e) refl
    ]

-- Every task of a map is read back from the line that it is written as.
abbrev pub ReadsBack : (QueueTask → String) → (String → Result QueueTask) → Map QueueTask → Type 0
ReadsBack marshal unmarshal tasks =
    (k : String) (t : QueueTask) → Map.get tasks k ≡ some t → unmarshal (marshal t) ≡ ok t

load-lines_of :
    (ids : List String) (marshal : QueueTask → String) (unmarshal : String → Result QueueTask)
    (tasks : Map QueueTask) (q : Queue)
    → ReadsBack marshal unmarshal tasks
    → Listed tasks q.tasks ids
    → (r : Queue) × (load unmarshal q (lines_of marshal tasks ids) ≡ ok r)
      × Reads tasks q.tasks (q.order ++ ids) ids r
unfolding load lines_of
load-lines_of [] marshal unmarshal tasks q back l =
    (q, refl, record { order_is = sym (append_nil q.order); tasks_are = λ k. refl })
load-lines_of (x ∷ xs) marshal unmarshal tasks q back l =
    let (t, held) = is_some→some (Map.get tasks x) (l.there x (rw (eq_refl x) refl)) in
    let (r, loaded, reads) =
      load-lines_of xs marshal unmarshal tasks (added q x t) back
        (Listed-tail tasks q.tasks x xs t l) in
    (
      r,
      ap (load unmarshal q) (lines_of-cons marshal tasks x xs t held)
          ∙ load-added unmarshal q x (marshal t) t (lines_of marshal tasks xs) (back x t held)
              (l.named x t held) (ground (arith, l.no_blank)) (l.new x (rw (eq_refl x) refl))
          ∙ loaded,
      Reads-cons tasks q.tasks x xs q.order t r held reads,
    )

all_listed : {b : Bool} (o : Option QueueTask) → b ≡ is_some o → (if b then o else none) ≡ o
all_listed none h = rw h refl
all_listed (some t) h = rw h refl

-- If JSON reads every task of the queue back as it was written, then from the lines of `persist` the
-- loop of `load` makes a queue with the same tasks, in the same order.
pub load-lines :
    (marshal : QueueTask → String) (unmarshal : String → Result QueueTask) (q : Queue) (k : String)
    → ReadsBack marshal unmarshal q.tasks
    → Consistent q
    → (r : Queue) × (load unmarshal (new_queue q.name q.workload) (lines_of marshal q.tasks q.order)
        ≡ ok r)
      × (r.order ≡ q.order)
      × (Map.get r.tasks k ≡ Map.get q.tasks k)
unfolding new_queue
load-lines marshal unmarshal q k back c =
    let (r, loaded, reads) =
      load-lines_of q.order marshal unmarshal q.tasks (new_queue q.name q.workload) back (record {
        there = λ i m. sym (c.keys i) ∙ m;
        named = c.named;
        new = λ i m. get-empty i;
        no_blank = c.no_blank;
        single = c.listed_once;
      }) in
    (
      r,
      loaded,
      reads.order_is,
      reads.tasks_are k
          ∙ rw (get-empty {V = QueueTask} k) (all_listed (Map.get q.tasks k) (c.keys k)),
    )
