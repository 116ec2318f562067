-- ===== src/Scheduler/Invariant.antt =====
-- The invariant of the scheduler: the queue holds exactly the ready tasks, and the running task is
-- exactly the current one. `schedule` keeps it.
use minicore_os.Base.{
  ℕ, ◌≡◌, ◌≢◌, refl, Bool, true, false, not, ◌&&◌, Option, none, some, List, [], ◌∷◌, ◌++◌, arith,
  ◌==◌, ◌∙◌, ap, subst, sym, if◌then◌else◌, Bool-cases, inl, inr,
}
use minicore_os.Scheduler.{
  TaskState, ready, running, sleeping, terminated, is_ready, is_running, Scheduler, update,
  task_queue_add, unlink_head, task_queue_remove_next, switch_to_task, preempt, dispatch, requeue,
  run_next, schedule,
}
use minicore_os.Scheduler.Queue.{
  has, has-snoc, IsQueue, task_queue_add-IsQueue, unlink_head-IsQueue, update-IsQueue, same-IsQueue,
}
use minicore_os.Scheduler.States.{state_of, state-task_queue_add, state-unlink_head, state-update}

abbrev pub points_to : Option ℕ → ℕ → Bool
points_to none i = false
points_to (some c) i = i == c

pub record IsSched (s : Scheduler) (xs : List ℕ) : Type 0 where
  pub queue : IsQueue s xs
  pub waiting : (i : ℕ) → has i xs ≡ is_ready (state_of s i)
  pub active : (i : ℕ) → points_to s.current i ≡ is_running (state_of s i)

-- The queue `xs` when the current task, if it is still running, has joined it.
abbrev pub requeued : Option ℕ → Scheduler → List ℕ → List ℕ
requeued none s xs = xs
requeued (some c) s xs = if is_running (state_of s c) then xs ++ (c ∷ []) else xs

-- The state between taking `x` off the queue and switching to it: `x` is the one ready task outside
-- the queue.
record Between (s : Scheduler) (x : ℕ) (xs : List ℕ) : Type 0 where
  queue : IsQueue s xs
  waiting : (i : ℕ) → has i xs ≡ (is_ready (state_of s i) && not (i == x))
  held : is_ready (state_of s x) ≡ true

-- No task runs but the current one.
abbrev pub OnlyCurrent : Option ℕ → Scheduler → Type 0
OnlyCurrent p s = (i : ℕ) → is_running (state_of s i) ≡ true → points_to p i ≡ true

ready-not-running : (v : TaskState) → is_running v ≡ true → is_ready v ≡ false
ready-not-running running e = refl
ready-not-running ready e = cc
ready-not-running sleeping e = cc
ready-not-running terminated e = cc

module _ {s : Scheduler} {x : ℕ} {xs : List ℕ} (c : ℕ) (b : Between s x xs)
    (only : OnlyCurrent (some c) s) (runs : is_running (state_of s c) ≡ true) where
  abbrev rejoined : Scheduler
  rejoined = record s { tasks = update s.tasks c preempt }

  state-rejoin :
      (i : ℕ) → state_of (task_queue_add rejoined c) i ≡ (if i == c then ready else state_of s i)
  state-rejoin i = state-task_queue_add rejoined c i ∙ state-update s c preempt i

  outside : has c xs ≡ false
  outside = ground (arith, b.waiting c, ready-not-running (state_of s c) runs)

  apart : x ≢ c
  apart e = ground (arith, b.held, ready-not-running (state_of s c) runs)

  Between-rejoin : Between (task_queue_add rejoined c) x (xs ++ (c ∷ []))
  Between-rejoin = record {
    queue = task_queue_add-IsQueue c (update-IsQueue c preempt (λ k. refl) b.queue) outside;
    waiting = λ i. ground (arith, state-rejoin i, has-snoc i xs c, b.waiting i, apart);
    held = ground (arith, state-rejoin x, b.held, apart);
  }

  idle-rejoin : (i : ℕ) → is_running (state_of (task_queue_add rejoined c) i) ≡ false
  idle-rejoin i = ground (arith, state-rejoin i, only i)

Between-requeue :
    (s : Scheduler) (x : ℕ) (xs : List ℕ) (p : Option ℕ)
    → Between s x xs
    → OnlyCurrent p s
    → Between (requeue p s) x (requeued p s xs)
      × ((i : ℕ) → is_running (state_of (requeue p s) i) ≡ false)
unfolding requeue
Between-requeue s x xs none b only =
    (b, λ i. elim (Bool-cases (is_running (state_of s i))) [ inl e ↦ cc (only i e) | inr e ↦ e ])
Between-requeue s x xs (some c) b only = elim (Bool-cases (is_running (state_of s c))) [
  | inl e ↦ rw e (Between-rejoin c b only e, idle-rejoin c b only e)
  | inr e ↦ rw e (b, λ i. ground (arith, only i))
]

module _ {s : Scheduler} {x : ℕ} {xs : List ℕ} (q : IsQueue s (x ∷ xs))
    (waiting : (i : ℕ) → has i (x ∷ xs) ≡ is_ready (state_of s i))
    (only : OnlyCurrent s.current s) where
  Between-unlink_head : Between (unlink_head s x) x xs
  Between-unlink_head = record {
    queue = unlink_head-IsQueue x xs q;
    waiting = λ i. ground (arith, state-unlink_head s x i, waiting i, q.distinct.0);
    held = ground (arith, state-unlink_head s x x, waiting x);
  }

  abbrev ran : Scheduler
  ran = requeue s.current (unlink_head s x)

  pub schedule_is : schedule s ≡ switch_to_task ran x
  unfolding schedule run_next task_queue_remove_next unlink_head
  schedule_is = rw q.links.0

  requeued_same : (p : Option ℕ) → requeued p (unlink_head s x) xs ≡ requeued p s xs
  requeued_same none = refl
  requeued_same (some c) =
      ap (λ v. if is_running v then xs ++ (c ∷ []) else xs) (state-unlink_head s x c)

  -- `schedule` with a task in the queue switches to it.
  pub schedule-IsSched :
      IsSched (schedule s) (requeued s.current s xs) × ((schedule s).current ≡ some x)
  unfolding switch_to_task
  schedule-IsSched =
      let (b, idle) =
        Between-requeue (unlink_head s x) x xs s.current Between-unlink_head
          (λ i e. only i (ground (arith, state-unlink_head s x i))) in
      let same = requeued_same s.current in
      subst (λ s'. IsSched s' (requeued s.current s xs) × (s'.current ≡ some x)) (sym schedule_is)
        (
          record {
            queue =
                subst (λ ys. IsQueue (switch_to_task ran x) ys) same
                  (same-IsQueue refl refl refl (update-IsQueue x dispatch (λ k. refl) b.queue));
            waiting = λ i.
                subst (λ ys. has i ys ≡ is_ready (state_of (switch_to_task ran x) i)) same
                  (ground (arith, b.waiting i, state-update ran x dispatch i));
            active = λ i. ground (arith, idle i, state-update ran x dispatch i);
          },
          refl,
        )

pub OnlyCurrent-of : {s : Scheduler} {xs : List ℕ} → IsSched s xs → OnlyCurrent s.current s
OnlyCurrent-of v i e = v.active i ∙ e

-- With an empty queue `schedule` does nothing.
pub schedule-nil : {s : Scheduler} → IsQueue s [] → schedule s ≡ s
unfolding schedule run_next task_queue_remove_next
schedule-nil q = rw q.links

-- On a valid scheduler with a current task and a task that waits, `schedule` keeps the scheduler
-- valid and is round robin: the first task of the queue becomes the current one, and the task that
-- ran joins the end of the queue.
pub schedule_round_robin :
    {s : Scheduler} {x : ℕ} {xs : List ℕ} (c : ℕ)
    → IsSched s (x ∷ xs)
    → s.current ≡ some c
    → IsSched (schedule s) (xs ++ (c ∷ [])) × ((schedule s).current ≡ some x)
schedule_round_robin {s} {x} {xs} c v e =
    let (w, at) = schedule-IsSched v.queue v.waiting (OnlyCurrent-of v) in
    let runs : is_running (state_of s c) ≡ true = ground (arith, v.active c) in
    let r : requeued s.current s xs ≡ xs ++ (c ∷ []) =
      ap (λ p. requeued p s xs) e ∙ ap (λ b. if b then xs ++ (c ∷ []) else xs) runs in
    (subst (IsSched (schedule s)) r w, at)
