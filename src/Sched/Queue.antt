-- ===== src/Sched/Queue.antt =====
-- drivers/scheduler.c: scheduler_enqueue and scheduler_dequeue as the two ends of a list.
use neko_os_c.Prelude.{
  ℕ, ◌+◌, ◌-◌, ◌^◌, ◌<◌, ◌≡◌, refl, sym, ap, ◌∙◌, ◌≢◌, Bool, true, false, ◌||◌, ◌==◌, List, [], ◌∷◌,
  ◌++◌, arith, length, length-append, if◌then◌else◌, u32, ok,
}
use neko_os_c.Sched.{ready, Task, Tasks, put, Sched, scheduler_enqueue, scheduler_dequeue}

abbrev pub contains : List ℕ → ℕ → Bool
contains [] a = false
contains (x ∷ xs) a = (x == a) || contains xs a

abbrev pub head_of : List ℕ → ℕ
head_of [] = 0
head_of (x ∷ xs) = x

abbrev pub last_from : ℕ → List ℕ → ℕ
last_from x [] = x
last_from x (y ∷ ys) = last_from y ys

abbrev pub last_of : List ℕ → ℕ
last_of [] = 0
last_of (x ∷ xs) = last_from x xs

-- The tasks are distinct, none is the null pointer, and each points to the one behind it.
abbrev pub Chain : Tasks → List ℕ → Type 0
Chain m [] = Unit {0}
Chain m (x ∷ xs) = (x ≢ 0) × ((m x).next ≡ head_of xs) × (contains xs x ≡ false) × Chain m xs

pub record IsQueue (s : Sched) (xs : List ℕ) : Type 0 where
  pub head : s.queue.head ≡ head_of xs
  pub tail : s.queue.tail ≡ last_of xs
  pub count : s.queue.count ≡ length xs
  pub unlocked : s.queue.locked ≡ 0
  pub chain : Chain s.tasks xs

pub Chain-put :
    (m : Tasks) (a : ℕ) (t : Task) (xs : List ℕ)
    → contains xs a ≡ false
    → Chain m xs
    → Chain (put m a t) xs
unfolding put
Chain-put m a t [] out c = tt
Chain-put m a t (x ∷ xs) out c = (c.0, ground arith, c.2, Chain-put m a t xs (ground arith) c.3)

-- Changes that leave the pointers alone.
pub Chain-next :
    (m n : Tasks) (xs : List ℕ) → ((a : ℕ) → (n a).next ≡ (m a).next) → Chain m xs → Chain n xs
Chain-next m n [] same c = tt
Chain-next m n (x ∷ xs) same c = (c.0, same x ∙ c.1, c.2, Chain-next m n xs same c.3)

pub put_self : (m : Tasks) (p : ℕ) (t : Task) → put m p t p ≡ t
unfolding put
put_self m p t = ground arith

pub put-other : (m : Tasks) (p a : ℕ) (t : Task) → a ≢ p → put m p t a ≡ m a
unfolding put
put-other m p a t ne = ground arith

pub ne_of_contains : (a b : ℕ) (xs : List ℕ) → contains xs a ≡ true → contains xs b ≡ false → a ≢ b
ne_of_contains a b [] yes_a no_b e = cc
ne_of_contains a b (x ∷ xs) yes_a no_b e = ground arith

contains-last_from : (x : ℕ) (xs : List ℕ) → contains (x ∷ xs) (last_from x xs) ≡ true
contains-last_from x [] = ground arith
contains-last_from x (y ∷ ys) = ground (arith, contains-last_from y ys)

pub contains-append :
    (a task : ℕ) (xs : List ℕ)
    → contains xs a ≡ false
    → task ≢ a
    → contains (xs ++ task ∷ []) a ≡ false
contains-append a task [] out ne = ground arith
contains-append a task (x ∷ xs) out ne = ground (arith, contains-append a task xs)

-- The task `a` points to `task`.
abbrev link : Tasks → ℕ → ℕ → Tasks
link m a task = put m a (record (m a) { next = task })

Chain-link :
    (m : Tasks) (task x : ℕ) (xs : List ℕ)
    → Chain m (x ∷ xs)
    → contains (x ∷ xs) task ≡ false
    → task ≢ 0
    → (m task).next ≡ 0
    → Chain (link m (last_from x xs) task) (x ∷ xs ++ task ∷ [])
unfolding put
Chain-link m task x [] c out nonnull end =
    (c.0, ground arith, ground arith, (nonnull, ground arith, refl, tt))
Chain-link m task x (y ∷ ys) c out nonnull end = (
  c.0,
  ap (λ (t : Task). t.next)
        (put-other m (last_from y ys) x _
          λ e. ne_of_contains (last_from y ys) x (y ∷ ys) (contains-last_from y ys) c.2 (sym e))
      ∙ c.1,
  contains-append x task (y ∷ ys) c.2 (ground arith),
  Chain-link m task y ys c.3 (ground arith) nonnull end,
)

last_from-append : (task x : ℕ) (xs : List ℕ) → last_from x (xs ++ task ∷ []) ≡ task
last_from-append task x [] = refl
last_from-append task x (y ∷ ys) = last_from-append task y ys

last_from-nonnull : (m : Tasks) (x : ℕ) (xs : List ℕ) → Chain m (x ∷ xs) → last_from x xs ≢ 0
last_from-nonnull m x [] c = c.0
last_from-nonnull m x (y ∷ ys) c = last_from-nonnull m y ys c.3

-- A task apart from its link.
abbrev pub body : Task → Task
body t = record t { next = 0 }

-- Every task but `task` has kept all but its link, and the processors are as they were.
abbrev pub OthersKept : ℕ → Sched → Sched → Type 0
OthersKept task s s' =
    ((a : ℕ) → a ≢ task → body (s'.tasks a) ≡ body (s.tasks a)) × (s'.cpus ≡ s.cpus)

abbrev pub Enqueued : ℕ → List ℕ → Sched → Type 0
Enqueued task xs s =
    (s' : Sched) × (scheduler_enqueue task s ≡ ok s')
    × IsQueue s' (xs ++ task ∷ [])
    × (body (s'.tasks task) ≡ record (s.tasks task) { state = ready; next = 0 })
    × OthersKept task s s'

link-body : (m : Tasks) (p task a : ℕ) → body (link m p task a) ≡ body (m a)
unfolding put
link-body m p task a = ground arith

fresh : Sched → ℕ → Tasks
fresh s task = put s.tasks task (record (s.tasks task) { state = ready; next = 0 })

module _ (task : ℕ) (s : Sched) (nonnull : task ≢ 0) where
  enqueue-empty : IsQueue s [] → Enqueued task [] s
  unfolding scheduler_enqueue fresh put
  enqueue-empty is =
      let real : (task == 0) ≡ false = ground arith in
      (
        record s {
          tasks = fresh s task;
          queue = record { head = task; tail = task; locked = 0; count = 1 };
        },
        rw (real, is.unlocked, is.tail, is.count),
        record {
          head = refl;
          tail = refl;
          count = refl;
          unlocked = refl;
          chain = (nonnull, ground arith, refl, tt);
        },
        ground arith,
        (λ a ne. ground arith, refl),
      )

  module _ (x : ℕ) (xs : List ℕ) (is : IsQueue s (x ∷ xs)) (out : contains (x ∷ xs) task ≡ false)
      (room : length (x ∷ xs) + 1 < 2 ^ 32) where
    last : ℕ
    last = last_from x xs

    enqueue-more : Enqueued task (x ∷ xs) s
    unfolding scheduler_enqueue fresh last
    enqueue-more =
        let real : (task == 0) ≡ false = ground arith in
        let some_tail : (last_from x xs == 0) ≡ false =
          ground (arith, last_from-nonnull s.tasks x xs is.chain) in
        let counted : u32 (s.queue.count + 1) ≡ length (x ∷ xs) + 1 =
          let e = is.count in omega arith in
        (
          record s {
            tasks = link (fresh s task) last task;
            queue = record { head = x; tail = task; locked = 0; count = length (x ∷ xs) + 1 };
          },
          rw (real, is.unlocked, is.tail, some_tail, is.head, counted),
          record {
            head = refl;
            tail = sym (last_from-append task x xs);
            count = sym (length-append (x ∷ xs) (task ∷ []));
            unlocked = refl;
            chain =
                Chain-link (fresh s task) task x xs (Chain-put s.tasks task _ (x ∷ xs) out is.chain)
                  out nonnull (unfold put in ground arith);
          },
          rw (link-body (fresh s task) last task task) (ap body (put_self s.tasks task _)),
          (
            λ a ne.
                rw (link-body (fresh s task) last task a) (ap body (put-other s.tasks task a _ ne)),
            refl,
          ),
        )

-- scheduler_enqueue puts a task that is not queued behind the queued ones and marks it ready, and
-- gives the lock back. No other task changes but for links.
pub scheduler_enqueue-append :
    (task : ℕ) (xs : List ℕ) (s : Sched)
    → IsQueue s xs
    → task ≢ 0
    → contains xs task ≡ false
    → length xs + 1 < 2 ^ 32
    → Enqueued task xs s
scheduler_enqueue-append task [] s is nonnull out room = enqueue-empty task s nonnull is
scheduler_enqueue-append task (x ∷ xs) s is nonnull out room =
    enqueue-more task s nonnull x xs is out room

abbrev pub Dequeued : ℕ → List ℕ → Sched → Type 0
Dequeued task rest s =
    (s' : Sched) × (scheduler_dequeue s ≡ ok (task, s'))
    × IsQueue s' rest
    × ((a : ℕ) → body (s'.tasks a) ≡ body (s.tasks a))
    × (s'.cpus ≡ s.cpus)

abbrev pub rest_of : List ℕ → List ℕ
rest_of [] = []
rest_of (x ∷ xs) = xs

tail_behind :
    (m : Tasks) (x t : ℕ) (xs : List ℕ)
    → Chain m xs
    → t ≡ last_from x xs
    → (if head_of xs == 0 then 0 else t) ≡ last_of xs
tail_behind m x t [] c e = refl
tail_behind m x t (y ∷ ys) c e = let ne : (y == 0) ≡ false = ground arith in rw ne e

dequeue-more :
    (x : ℕ) (xs : List ℕ) (s : Sched)
    → IsQueue s (x ∷ xs)
    → length (x ∷ xs) < 2 ^ 32
    → Dequeued x xs s
unfolding scheduler_dequeue
dequeue-more x xs s is room =
    let some_head : (x == 0) ≡ false = (let ne = is.chain.0 in ground arith) in
    let counted : u32 (s.queue.count + 2 ^ 32 - 1) ≡ length xs = let e = is.count in omega arith in
    (
      record s {
        tasks = put s.tasks x (record (s.tasks x) { next = 0 });
        queue = record {
          head = head_of xs;
          tail = if head_of xs == 0 then 0 else s.queue.tail;
          locked = 0;
          count = length xs;
        };
      },
      rw (is.unlocked, is.head, some_head, is.chain.1, counted),
      record {
        head = refl;
        tail = tail_behind s.tasks x s.queue.tail xs is.chain.3 is.tail;
        count = refl;
        unlocked = refl;
        chain = Chain-put s.tasks x _ xs is.chain.2 is.chain.3;
      },
      λ a. (unfold put in ground arith),
      refl,
    )

-- scheduler_dequeue takes the front task off the queue, or answers the null pointer if none is
-- queued, and gives the lock back. No task changes but for links.
pub scheduler_dequeue-front :
    (xs : List ℕ) (s : Sched)
    → IsQueue s xs
    → length xs < 2 ^ 32
    → Dequeued (head_of xs) (rest_of xs) s
scheduler_dequeue-front [] s is room = (
  record s { queue = record (s.queue) { locked = 0 } },
  (unfold scheduler_dequeue in rw (is.unlocked, is.head)),
  record { head = is.head; tail = is.tail; count = is.count; unlocked = refl; chain = tt },
  λ a. refl,
  refl,
)
scheduler_dequeue-front (x ∷ xs) s is room = dequeue-more x xs s is room
