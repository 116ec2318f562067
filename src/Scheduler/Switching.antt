-- ===== src/Scheduler/Switching.antt =====
-- `task_exit`, `task_sleep` and the timer interrupt of scheduler.c: they keep the invariant of the
-- scheduler while another task waits for the processor, and what they do when none does.
use minicore_os.Base.{
  ℕ, ◌+◌, ◌≡◌, ◌≢◌, refl, true, false, Option, none, some, List, [], ◌∷◌, ◌++◌, arith, ◌∙◌, ap,
  subst, sym, if◌then◌else◌, wrap32,
}
use minicore_os.Scheduler.{
  Task, TaskState, ready, running, sleeping, terminated, is_ready, is_running, Scheduler, update,
  set_state, schedule, put_to_sleep, task_sleep, sleep_current, terminate, exit_current, task_exit,
}
use minicore_os.Scheduler.Queue.{has, IsQueue, update-IsQueue, same-IsQueue, update_self}
use minicore_os.Scheduler.States.{state_of, state-update}
use minicore_os.Scheduler.Invariant.{points_to, IsSched, requeued, schedule-IsSched, schedule-nil}

abbrev pub rest : List ℕ → List ℕ
rest [] = []
rest (x ∷ xs) = xs

abbrev pub first : List ℕ → Option ℕ
first [] = none
first (x ∷ xs) = some x

module _ {s : Scheduler} {xs : List ℕ} (c : ℕ) (v : IsSched s xs) (at : s.current ≡ some c) where
  runs : is_running (state_of s c) ≡ true
  runs = sym (v.active c) ∙ ap (λ p. points_to p c) at ∙ ground arith

  alone : (i : ℕ) → i ≢ c → is_running (state_of s i) ≡ false
  alone i ne = sym (v.active i) ∙ ap (λ p. points_to p i) at ∙ ground arith

  outside : has c xs ≡ false
  outside = ground (arith, v.waiting c, runs_not_ready (state_of s c) runs)
    where
      runs_not_ready : (w : TaskState) → is_running w ≡ true → is_ready w ≡ false
      runs_not_ready running e = refl
      runs_not_ready ready e = cc
      runs_not_ready sleeping e = cc
      runs_not_ready terminated e = cc

  -- A running task that stops neither runs nor waits.
  module _ (f : Task → Task) (keep : (k : Task) → (f k).next ≡ k.next)
      (stops : (is_ready (f (s.tasks c)).state ≡ false)
        × (is_running (f (s.tasks c)).state ≡ false)) where
    abbrev stopped : Scheduler
    stopped = record s { tasks = update s.tasks c f }

    stopped_waiting : (i : ℕ) → has i xs ≡ is_ready (state_of stopped i)
    stopped_waiting i = ground (arith, state-update s c f i, v.waiting i, outside)

    stopped_idle : (i : ℕ) → is_running (state_of stopped i) ≡ false
    stopped_idle i = ground (arith, state-update s c f i, alone i)

  abbrev gone : Scheduler
  gone = record s { tasks = set_state s.tasks c terminated; current = none }

  leave :
      (ys : List ℕ)
      → ((i : ℕ) → has i ys ≡ is_ready (state_of gone i))
      → ((i : ℕ) → is_running (state_of gone i) ≡ false)
      → IsQueue gone ys
      → IsSched (schedule gone) (rest ys) × ((schedule gone).current ≡ first ys)
  leave [] w idle q =
      subst (λ z. IsSched z [] × (z.current ≡ none)) (sym (schedule-nil q))
        (record { queue = q; waiting = w; active = λ i. sym (idle i) }, refl)
  leave (x ∷ ys) w idle q = schedule-IsSched {s = gone} q w (λ i e. cc (idle i))

  -- On a valid scheduler with a current task `task_exit` takes that task out and runs the first task
  -- of the queue, or none when the queue is empty; the scheduler stays valid.
  pub task_exit-IsSched : IsSched (task_exit s) (rest xs) × ((task_exit s).current ≡ first xs)
  unfolding task_exit exit_current terminate
  task_exit-IsSched =
      let f : Task → Task = λ k. record k { state = terminated } in
      rw at (
        leave xs (stopped_waiting f (λ k. refl) (refl, refl))
          (stopped_idle f (λ k. refl) (refl, refl))
          (same-IsQueue refl refl refl (update-IsQueue c f (λ k. refl) v.queue)))

module _ {s : Scheduler} {x : ℕ} {xs : List ℕ} (c ticks : ℕ) (v : IsSched s (x ∷ xs))
    (at : s.current ≡ some c) where
  abbrev asleep : Task → Task
  asleep k = record k { state = sleeping; sleep_until = wrap32 (s.system_ticks + ticks) }

  -- On a valid scheduler with a current task and a task that waits, `task_sleep` runs the first task
  -- of the queue and keeps the scheduler valid; the current task is not in the queue any more.
  pub task_sleep-IsSched : IsSched (task_sleep ticks s) xs × ((task_sleep ticks s).current ≡ some x)
  unfolding task_sleep sleep_current put_to_sleep
  task_sleep-IsSched =
      let s' : Scheduler = record s { tasks = update s.tasks c asleep } in
      let idle = stopped_idle c v at asleep (λ k. refl) (refl, refl) in
      let (w, now) =
        schedule-IsSched {s = s'} (update-IsQueue c asleep (λ k. refl) v.queue)
          (stopped_waiting c v at asleep (λ k. refl) (refl, refl)) (λ i e. cc (idle i)) in
      let same : requeued s.current s' xs ≡ xs =
        ap (λ p. requeued p s' xs) at ∙ ap (λ b. if b then xs ++ (c ∷ []) else xs) (idle c) in
      subst
        (λ p. IsSched (sleep_current p ticks s) xs × ((sleep_current p ticks s).current ≡ some x))
        (sym at) (subst (IsSched (schedule s')) same w, now)

-- With an empty queue and a current task `task_sleep` marks that task as sleeping and does nothing
-- else: it stays the current task.
pub task_sleep_alone :
    (s : Scheduler) (c ticks : ℕ)
    → IsQueue s []
    → s.current ≡ some c
    → (task_sleep ticks s ≡ put_to_sleep ticks c s)
      × ((task_sleep ticks s).current ≡ some c)
      × (state_of (task_sleep ticks s) c ≡ sleeping)
unfolding task_sleep sleep_current put_to_sleep
task_sleep_alone s c ticks q at =
    let f : Task → Task =
      λ k. record k { state = sleeping; sleep_until = wrap32 (s.system_ticks + ticks) } in
    let e =
      schedule-nil {s = put_to_sleep ticks c s}
        (same-IsQueue refl refl refl (update-IsQueue c f (λ k. refl) q)) in
    let same = ap (λ p. sleep_current p ticks s) at ∙ e in
    (
      same,
      ap (λ (w : Scheduler). w.current) same ∙ at,
      ap (λ w. state_of w c) same ∙ ap (λ (k : Task). k.state) (update_self s.tasks c f),
    )
