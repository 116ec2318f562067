-- ===== src/Scheduler/Lifecycle.antt =====
-- The life of a task in scheduler.c: `task_create`, `task_sleep`, `task_exit`, the wake-up and the
-- clock of `scheduler_tick` keep the invariant of the scheduler.
use minicore_os.Base.{
  ℕ, zero, suc, ◌+◌, ◌≡◌, ◌≢◌, ◌⊎◌, ◌≤◌, ◌<◌, refl, true, false, none, some, List, [], ◌∷◌, ◌++◌,
  arith, ◌==◌, ◌∙◌, ap, subst, sym, if◌then◌else◌, Bool-cases, Option-cases, inl, inr, wrap32,
}
use minicore_os.Scheduler.{
  Task, TaskState, ready, running, sleeping, terminated, is_ready, is_running, is_sleeping,
  is_terminated, max_tasks, Scheduler, update, task_queue_add, free_slot, init_task, create_in,
  task_create,
}
use minicore_os.Scheduler.Queue.{
  has-snoc, task_queue_add-IsQueue, update-IsQueue, same-IsQueue, update_ne,
}
use minicore_os.Scheduler.States.{
  state_of, state-task_queue_add, current-task_queue_add, state-update,
}
use minicore_os.Scheduler.Invariant.{IsSched}

-- A task that neither runs nor waits joins the queue when it is made ready.
pub enqueue-IsSched :
    {s : Scheduler} {xs : List ℕ} (i : ℕ) (f : Task → Task)
    → IsSched s xs
    → is_ready (state_of s i) ≡ false
    → is_running (state_of s i) ≡ false
    → ((k : Task) → (f k).next ≡ k.next)
    → (f (s.tasks i)).state ≡ ready
    → IsSched (task_queue_add (record s { tasks = update s.tasks i f }) i) (xs ++ (i ∷ []))
enqueue-IsSched {s} {xs} i f v idle still keep made =
    let s' : Scheduler = record s { tasks = update s.tasks i f } in
    let states : (j : ℕ)
        → state_of (task_queue_add s' i) j ≡ (if j == i then ready else state_of s j) =
      λ j.
        state-task_queue_add s' i j
        ∙ state-update s i f j
        ∙ ap (λ x. if j == i then x else state_of s j) made in
    record {
      queue = task_queue_add-IsQueue i (update-IsQueue i f keep v.queue) (v.waiting i ∙ idle);
      waiting = λ j. ground (arith, states j, has-snoc j xs i, v.waiting j);
      active = λ j. ground (arith, states j, current-task_queue_add s' i, v.active j);
    }

-- The invariant does not read the other variables.
pub same-IsSched :
    {s : Scheduler} {xs : List ℕ} (id ticks : ℕ)
    → IsSched s xs
    → IsSched (record s { next_task_id = id; system_ticks = ticks }) xs
same-IsSched id ticks v = record {
  queue = same-IsQueue refl refl refl v.queue;
  waiting = v.waiting;
  active = v.active;
}

not_waiting :
    (v : TaskState) → is_terminated v ≡ true → (is_ready v ≡ false) × (is_running v ≡ false)
not_waiting terminated e = (refl, refl)
not_waiting ready e = cc
not_waiting running e = cc
not_waiting sleeping e = cc

pub not_awake :
    (v : TaskState) → is_sleeping v ≡ true → (is_ready v ≡ false) × (is_running v ≡ false)
not_awake sleeping e = (refl, refl)
not_awake ready e = cc
not_awake running e = cc
not_awake terminated e = cc

-- `free_slot` finds the first terminated task of the entries from `i` on.
pub free_slot-some :
    (n i : ℕ) (t : ℕ → Task) (j : ℕ)
    → free_slot n i t ≡ some j
    → (is_terminated (t j).state ≡ true)
      × (j < i + n)
      × ((k : ℕ) → i ≤ k → k < j → is_terminated (t k).state ≡ false)
unfolding free_slot
free_slot-some zero i t j e = cc
free_slot-some (suc n) i t j e = elim (Bool-cases (is_terminated (t i).state)) [
  | inl b ↦
      let same : i ≡ j = ground arith in
      (subst (λ k. is_terminated (t k).state ≡ true) same b, ground arith, λ k le lt. ground arith)
  | inr b ↦
      let (h, lt, first) = free_slot-some n (i + 1) t j (ground arith) in
      (
        h,
        omega arith,
        λ k le below. elim (Bool-cases (i == k)) [
          | inl q ↦ subst (λ m. is_terminated (t m).state ≡ false) (ground arith) b
          | inr q ↦ first k (ground arith) below
        ],
      )
]

pub free_slot-none :
    (n i : ℕ) (t : ℕ → Task)
    → free_slot n i t ≡ none
    → (k : ℕ) → i ≤ k
    → k < i + n
    → is_terminated (t k).state ≡ false
unfolding free_slot
free_slot-none zero i t e k le lt = absurd (omega arith)
free_slot-none (suc n) i t e k le lt = elim (Bool-cases (is_terminated (t i).state)) [
  | inl b ↦ cc
  | inr b ↦ elim (Bool-cases (i == k)) [
    | inl q ↦ subst (λ m. is_terminated (t m).state ≡ false) (ground arith) b
    | inr q ↦ free_slot-none n (i + 1) t (ground arith) k (ground arith) (omega arith)
  ]
]

-- What `task_create` returns and leaves when it has put the new task into entry `i`.
pub record CreatedAt (s : Scheduler) (xs : List ℕ) (i id : ℕ) (s' : Scheduler) : Type 0 where
  pub inside : i < max_tasks
  pub was_free : is_terminated (state_of s i) ≡ true
  pub returned : id ≡ s.next_task_id
  pub counted : s'.next_task_id ≡ wrap32 (s.next_task_id + 1)
  pub queued : IsSched s' (xs ++ (i ∷ []))
  pub others : (j : ℕ) → j ≢ i → state_of s' j ≡ state_of s j

next_task_id-task_queue_add :
    (s : Scheduler) (i : ℕ) → (task_queue_add s i).next_task_id ≡ s.next_task_id
unfolding task_queue_add
next_task_id-task_queue_add s i = ground arith

-- `task_create` on a valid scheduler: either the table is full of tasks that are not terminated, 0 is
-- returned and nothing changes, or a terminated entry becomes the last task of the queue, the other
-- tasks keep their state, the id is the counter's and the scheduler stays valid.
pub task_create_contract :
    (stack_of : ℕ → ℕ) (name : List ℕ) (entry : ℕ) (s : Scheduler) (xs : List ℕ)
    → IsSched s xs
    → ((task_create stack_of name entry s ≡ (0, s))
        × ((k : ℕ) → k < max_tasks → is_terminated (state_of s k) ≡ false))
      ⊎ (i : ℕ) × CreatedAt s xs i
          (task_create stack_of name entry s).0
          (task_create stack_of name entry s).1
unfolding task_create create_in init_task
task_create_contract stack_of name entry s xs v =
    elim (Option-cases (free_slot max_tasks 0 s.tasks)) [
      | inl e ↦ rw e (inl (refl, λ k lt. free_slot-none max_tasks 0 s.tasks e k (ground arith) lt))
      | inr (i, e) ↦
          let (free, lt, _) = free_slot-some max_tasks 0 s.tasks i e in
          let (idle, still) = not_waiting (state_of s i) free in
          let f : Task → Task = init_task s.next_task_id name entry (stack_of i) in
          let s' : Scheduler = record s { next_task_id = wrap32 (s.next_task_id + 1) } in
          let q =
            enqueue-IsSched {s = s'} i f
              (same-IsSched (wrap32 (s.next_task_id + 1)) s.system_ticks v) idle still (λ k. refl)
              refl in
          rw e (
            inr (
              i,
              record {
                inside = lt;
                was_free = free;
                returned = refl;
                counted = next_task_id-task_queue_add (record s' { tasks = update s.tasks i f }) i;
                queued = q;
                others = λ j ne.
                    state-task_queue_add (record s' { tasks = update s.tasks i f }) i j
                    ∙ ap (λ (k : Task). k.state) (update_ne s.tasks i f j ne);
              },
            ))
    ]

-- `task_create` leaves the current task.
pub current-task_create :
    (stack_of : ℕ → ℕ) (name : List ℕ) (entry : ℕ) (s : Scheduler)
    → (task_create stack_of name entry s).1.current ≡ s.current
unfolding task_create create_in
current-task_create stack_of name entry s = elim (Option-cases (free_slot max_tasks 0 s.tasks)) [
  | inl e ↦ rw e refl
  | inr (i, e) ↦ rw e (
      current-task_queue_add
        (record s {
          tasks = update s.tasks i (init_task s.next_task_id name entry (stack_of i));
          next_task_id = wrap32 (s.next_task_id + 1);
        })
        i)
]

-- `task_create` leaves a valid scheduler.
pub task_create-IsSched :
    (stack_of : ℕ → ℕ) (name : List ℕ) (entry : ℕ) (s : Scheduler) (xs : List ℕ)
    → IsSched s xs
    → (ys : List ℕ) × IsSched (task_create stack_of name entry s).1 ys
task_create-IsSched stack_of name entry s xs v =
    elim (task_create_contract stack_of name entry s xs v) [
      | inl (e, _) ↦ (xs, subst (λ (r : ℕ × Scheduler). IsSched r.1 xs) (sym e) v)
      | inr (i, c) ↦ (xs ++ (i ∷ []), c.queued)
    ]
