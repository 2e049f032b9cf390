-- ===== src/Boot/Loops.antt =====
-- kernel/main.c and drivers/scheduler.c: the loops that create the first tasks.
use neko_os_c.Prelude.{
  ℕ, zero, suc, ◌+◌, ◌^◌, ◌≤◌, ◌<◌, ◌≡◌, ◌≢◌, ◌⊎◌, inl, inr, refl, ap, ◌∙◌, true, false, ◌==◌, List,
  [], ◌∷◌, ◌++◌, length, arith, ok, then_ok,
}
use neko_os_c.Boot.{System, sched_of, Program, create_idles, enqueue_task, create_tests}
use neko_os_c.Boot.Laid.{task_addr, first_task}
use neko_os_c.Boot.Tasks.{new_task, Populated, Room, create-Populated}
use neko_os_c.Context.{Kernel, task_create}
use neko_os_c.Sched.{Task, Tasks, ready, put, CpuLocal, put_cpu}
use neko_os_c.Sched.Queue.{contains, IsQueue, Chain-put, body, scheduler_enqueue-append}

-- Each processor below `n` has its idle task, and runs none.
abbrev pub Idling : (start b n : ℕ) → (ℕ → CpuLocal) → Type 0
Idling start b n cpus =
    (c : ℕ) → c < n → cpus c ≡ record { current = 0; idle = task_addr (first_task start b) c }

split_below : (i n : ℕ) → i < suc n → (i < n) ⊎ (i ≡ n)
split_below i n low = ground arith

Idling-put :
    (start b n : ℕ) (cpus : ℕ → CpuLocal)
    → Idling start b n cpus
    → Idling start b
        (suc n)
        (put_cpu cpus n (record { current = 0; idle = task_addr (first_task start b) n }))
Idling-put start b n cpus idling c low = elim (split_below c n low) [
  | inl before ↦ let other : (c == n) ≡ false = ground arith in rw other (idling c before)
  | inr last ↦ let same : (c == n) ≡ true = ground arith in rw same (rw last refl)
]

-- `m` tasks are there after the rest of the loop of scheduler_init.
pub create_idles-Idling :
    (start b size n i m : ℕ) (program : Program) (s : System)
    → i + n ≡ m
    → Room b size m
    → Populated start b size program.cr3 i s.kernel
    → Idling start b i s.cpus
    → (s' : System) × (create_idles n i program s ≡ ok s')
      × Populated start b size program.cr3 m s'.kernel
      × Idling start b m s'.cpus
      × (s'.queue ≡ s.queue)
unfolding create_idles
create_idles-Idling start b size zero i m program s count room pop idling =
    let same : i ≡ m = omega arith in (s, refl, rw same at pop, rw same at idling, refl)
create_idles-Idling start b size (suc n) i m program s count room pop idling =
    let (k, run, pop', _) =
      create-Populated start b size program.cr3 i program.symbols program.idle_task 0 s.kernel pop
        (omega (arith, room.0, count), omega (arith, room.1, count)) in
    let s1 : System = record s {
      kernel = k;
      cpus = put_cpu s.cpus i (record { current = 0; idle = task_addr (first_task start b) i });
    } in
    let (s', runs, pop'', idling', queue) =
      create_idles-Idling start b size n (suc i) m program s1 (omega arith) room pop'
        (Idling-put start b i s.cpus idling) in
    (s', then_ok _ _ _ run ∙ runs, pop'', idling', queue)

-- The tasks from number `i` on.
abbrev pub addrs : (n base i : ℕ) → List ℕ
addrs zero base i = []
addrs (suc n) base i = task_addr base i ∷ addrs n base (suc i)

addrs-snoc :
    (n base i j : ℕ) → i + n ≡ j → addrs n base i ++ task_addr base j ∷ [] ≡ addrs (suc n) base i
addrs-snoc zero base i j e = let same : j ≡ i = omega arith in rw same refl
addrs-snoc (suc n) base i j e =
    ap (λ (xs : List ℕ). task_addr base i ∷ xs) (addrs-snoc n base (suc i) j (omega arith))

contains-addrs : (n base i j : ℕ) → i + n ≤ j → contains (addrs n base i) (task_addr base j) ≡ false
contains-addrs zero base i j e = refl
contains-addrs (suc n) base i j e =
    let ne : (task_addr base i == task_addr base j) ≡ false = ground arith in
    rw ne (contains-addrs n base (suc i) j (omega arith))

length-addrs : (n base i : ℕ) → length (addrs n base i) ≡ n
length-addrs zero base i = refl
length-addrs (suc n) base i = ap suc (length-addrs n base (suc i))

-- A task that is created and then queued, behind the tasks `xs`.
module _ (start b size cr3 n : ℕ) (k : Kernel) (s : System) (xs : List ℕ) (t : Task)
    (pop : Populated start b size cr3 (suc n) k) (is : IsQueue (sched_of s) xs)
    (tasks : k.tasks ≡ put s.kernel.tasks (task_addr (first_task start b) n) t)
    (out : contains xs (task_addr (first_task start b) n) ≡ false)
    (room : length xs + 1 < 2 ^ 32) where
  abbrev made_task : ℕ
  made_task = task_addr (first_task start b) n

  abbrev created : System
  created = record s { kernel = k }

  created-IsQueue : IsQueue (sched_of created) xs
  created-IsQueue = record {
    head = is.head;
    tail = is.tail;
    count = is.count;
    unlocked = is.unlocked;
    chain = rw tasks (Chain-put s.kernel.tasks made_task t xs out is.chain);
  }

  Enqueued-made :
      (m : Tasks)
      → ((a : ℕ) → a ≢ made_task → body (m a) ≡ body (k.tasks a))
      → body (m made_task) ≡ record (k.tasks made_task) { state = ready; next = 0 }
      → (i : ℕ) → i < suc n
      → body (m (task_addr (first_task start b) i))
        ≡ new_task cr3 (task_addr (first_task start b) i) i
  Enqueued-made m kept this i low = elim (split_below i n low) [
    | inl before ↦
        kept (task_addr (first_task start b) i) (λ e. omega (arith, e, before)) ∙ pop.made i low
    | inr last ↦
        rw last (this ∙ ap (λ (q : Task). record q { state = ready }) (pop.made n (omega arith)))
  ]

  pub enqueue-Populated :
      (s' : System) × (enqueue_task made_task created ≡ ok s')
      × Populated start b size cr3 (suc n) s'.kernel
      × IsQueue (sched_of s') (xs ++ made_task ∷ [])
      × (s'.cpus ≡ s.cpus)
  unfolding enqueue_task
  enqueue-Populated =
      let (q, run, is', this, (kept, cpus)) =
        scheduler_enqueue-append made_task xs (sched_of created) created-IsQueue (omega arith) out
          room in
      (
        record { kernel = record k { tasks = q.tasks }; queue = q.queue; cpus = q.cpus },
        then_ok _ _ _ run,
        record { heap = pop.heap; next_id = pop.next_id; made = Enqueued-made q.tasks kept this },
        is',
        cpus,
      )

create_tests-step :
    (n i task : ℕ) (program : Program) (s s1 s' : System) (k : Kernel)
    → task_create program.symbols program.cr3 program.test_task i s.kernel ≡ ok (task, k)
    → enqueue_task task (record s { kernel = k }) ≡ ok s1
    → create_tests n (suc i) program s1 ≡ ok s'
    → create_tests (suc n) i program s ≡ ok s'
unfolding create_tests
create_tests-step n i task program s s1 s' k run queued runs =
    then_ok _ _ _ run ∙ then_ok _ _ _ queued ∙ runs

-- The loop of kernel_main at round `i`, with `j` tasks queued of those from number `lo` on, and `n` to
-- come.
pub create_tests-IsQueue :
    (start b size n i lo j m : ℕ) (program : Program) (s : System)
    → j + n ≡ m
    → Room b size (lo + m)
    → Populated start b size program.cr3 (lo + j) s.kernel
    → IsQueue (sched_of s) (addrs j (first_task start b) lo)
    → (s' : System) × (create_tests n i program s ≡ ok s')
      × Populated start b size program.cr3 (lo + m) s'.kernel
      × IsQueue (sched_of s') (addrs m (first_task start b) lo)
      × (s'.cpus ≡ s.cpus)
unfolding create_tests
create_tests-IsQueue start b size zero i lo j m program s count room pop is =
    let same : j ≡ m = omega arith in (s, refl, rw same at pop, rw same at is, refl)
create_tests-IsQueue start b size (suc n) i lo j m program s count room pop is =
    let base : ℕ = first_task start b in
    let (k, run, pop1, tasks) =
      create-Populated start b size program.cr3 (lo + j) program.symbols program.test_task i
        s.kernel pop (omega (arith, room.0, count), omega (arith, room.1, count)) in
    let (s1, queued, pop2, is2, cpus) =
      enqueue-Populated start b size program.cr3 (lo + j) k s (addrs j base lo) _ pop1 is tasks
        (contains-addrs j base lo (lo + j) (omega arith))
        (omega (arith, room.1, count, length-addrs j base lo)) in
    let next : suc (lo + j) ≡ lo + suc j = omega arith in
    let (s', runs, pop', is', cpus') =
      create_tests-IsQueue start b size n (suc i) lo (suc j) m program s1 (omega arith) room
        (rw next at pop2) (rw (addrs-snoc j base lo (lo + j) refl) at is2) in
    (
      s',
      create_tests-step n i (task_addr base (lo + j)) program s s1 s' k run queued runs,
      pop',
      is',
      cpus' ∙ cpus,
    )
