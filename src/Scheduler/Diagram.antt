-- ===== src/Scheduler/Diagram.antt =====
-- Each operation of scheduler.c keeps to the diagram of the task states.
use minicore_os.Base.{
  ℕ, ◌+◌, ◌≡◌, ltb, leb, ◌&&◌, refl, Bool, true, Option, none, some, List, arith, ◌==◌, ◌∙◌, ap,
  subst, sym, if◌then◌else◌, Bool-cases, inl, inr, wrap32, zero, suc,
}
use minicore_os.Scheduler.{
  Task, TaskState, ready, running, sleeping, terminated, is_sleeping, is_terminated, max_tasks,
  Scheduler, update, schedule, task_yield, put_to_sleep, sleep_current, task_sleep, terminate,
  exit_current, task_exit, wake, wake_all, charge, charge_current, after_tick, scheduler_tick,
  init_task, create_in, task_create,
}
use minicore_os.Scheduler.States.{state_of, state-task_queue_add, state-update}
use minicore_os.Scheduler.Invariant.{IsSched}
use minicore_os.Scheduler.Lifecycle.{free_slot-some, same-IsSched}
use minicore_os.Scheduler.Tick.{tick_count, charge-IsSched, wake_all-IsSched}
use minicore_os.Scheduler.Moves.{
  create, yield, sleep, exit, wake_up, tick, yield_schedules, sleep_schedules, exit_schedules,
  tick_schedules, Move, stays, created, slept, woken_up, exited, Turn, keeps, Turn-Move,
  IsSched-HeadReady, schedule-Turn, stop-Move,
}

-- What the loop of `scheduler_tick` that wakes tasks may do to a task.
data Wakes : TaskState → TaskState → Type 0 where
  sleeps_on : {v : TaskState} → Wakes v v
  wakes : Wakes sleeping ready

Wakes-Move : {v w : TaskState} → Wakes v w → Move wake_up v w
Wakes-Move sleeps_on = stays
Wakes-Move wakes = woken_up

Wakes-trans : {v w u : TaskState} → Wakes v w → Wakes w u → Wakes v u
Wakes-trans sleeps_on t = t
Wakes-trans wakes sleeps_on = wakes

is_sleeping-true : (v : TaskState) (b : Bool) → (is_sleeping v && b) ≡ true → v ≡ sleeping
is_sleeping-true sleeping b e = refl
is_sleeping-true ready b e = cc
is_sleeping-true running b e = cc
is_sleeping-true terminated b e = cc

wake-Wakes : (n : ℕ) (s : Scheduler) (i : ℕ) → Wakes (state_of s i) (state_of (wake n s) i)
unfolding wake
wake-Wakes n s i =
    elim (Bool-cases
      (is_sleeping (s.tasks n).state && leb (s.tasks n).sleep_until s.system_ticks)) [
        | inl e ↦
            let f : Task → Task = λ k. record k { state = ready } in
            rw e (
              subst (Wakes (state_of s i))
                (sym (
                  state-task_queue_add (record s { tasks = update s.tasks n f }) n i
                  ∙ state-update s n f i))
                (woken_state (is_sleeping-true (state_of s n) _ e)))
        | inr e ↦ rw e sleeps_on
      ]
  where
    woken_state :
        state_of s n ≡ sleeping → Wakes (state_of s i) (if i == n then ready else state_of s i)
    woken_state e = elim (Bool-cases (i == n)) [
      | inl same ↦
          rw same (subst (λ u. Wakes u ready) (sym (ap (state_of s) (ground arith) ∙ e)) wakes)
      | inr other ↦ rw other sleeps_on
    ]

wake_all-Wakes : (n : ℕ) (s : Scheduler) (i : ℕ) → Wakes (state_of s i) (state_of (wake_all n s) i)
unfolding wake_all
wake_all-Wakes zero s i = sleeps_on
wake_all-Wakes (suc n) s i = Wakes-trans (wake_all-Wakes n s i) (wake-Wakes n (wake_all n s) i)

charge-state : (c : ℕ) (s : Scheduler) (i : ℕ) → state_of (charge c s) i ≡ state_of s i
unfolding charge
charge-state c s i = state-update s c _ i ∙ same
  where
    same : (if i == c then state_of s c else state_of s i) ≡ state_of s i
    same = elim (Bool-cases (i == c)) [
      | inl e ↦ rw e (ap (state_of s) (ground arith))
      | inr e ↦ rw e refl
    ]

charge_current-Turn :
    (p : Option ℕ) {s : Scheduler} {xs : List ℕ} (i : ℕ)
    → IsSched s xs
    → Turn (state_of s i) (state_of (charge_current p s) i)
unfolding charge_current
charge_current-Turn none {s} {xs} i v = keeps
charge_current-Turn (some c) {s} {xs} i v =
    let heads = IsSched-HeadReady xs (charge-IsSched c v) in
    let t =
      subst (λ u. Turn u (state_of (schedule (charge c s)) i)) (charge-state c s i)
        (schedule-Turn (charge c s) heads i) in
    elim (Bool-cases (ltb 100 s.system_ticks)) [
      | inl e ↦ elim (Bool-cases (((charge c s).tasks c).time_remaining == 0)) [
        | inl e' ↦ rw (e, e') t
        | inr e' ↦ rw (e, e') (subst (Turn (state_of s i)) (sym (charge-state c s i)) keeps)
      ]
      | inr e ↦ rw e keeps
    ]

create_in-Move :
    (o : Option ℕ) (stack_of : ℕ → ℕ) (name : List ℕ) (entry : ℕ) (s : Scheduler) (i : ℕ)
    → ((j : ℕ) → o ≡ some j → state_of s j ≡ terminated)
    → Move create (state_of s i) (state_of (create_in o stack_of name entry s).1 i)
unfolding create_in init_task
create_in-Move none stack_of name entry s i free = stays
create_in-Move (some j) stack_of name entry s i free =
    let f = init_task s.next_task_id name entry (stack_of j) in
    let s' : Scheduler = record s {
      tasks = update s.tasks j f;
      next_task_id = wrap32 (s.next_task_id + 1);
    } in
    subst (Move create (state_of s i)) (sym (state-task_queue_add s' j i ∙ state-update s j f i))
      (elim (Bool-cases (i == j)) [
        | inl e ↦ rw e (
            subst (λ u. Move create u ready) (sym (ap (state_of s) (ground arith) ∙ free j refl))
              created)
        | inr e ↦ rw e stays
      ])

is_terminated-true : (v : TaskState) → is_terminated v ≡ true → v ≡ terminated
is_terminated-true terminated e = refl
is_terminated-true ready e = cc
is_terminated-true running e = cc
is_terminated-true sleeping e = cc

sleep-Move :
    (p : Option ℕ) (ticks : ℕ) {s : Scheduler} {xs : List ℕ} (i : ℕ)
    → IsSched s xs
    → s.current ≡ p
    → Move sleep (state_of s i) (state_of (sleep_current p ticks s) i)
unfolding sleep_current put_to_sleep
sleep-Move none ticks i v at = stays
sleep-Move (some c) ticks {s} i v at =
    stop-Move c (λ k. record k { state = sleeping; sleep_until = wrap32 (s.system_ticks + ticks) })
      s.current sleeping i sleep_schedules v at (λ k. refl) refl refl slept

exit-Move :
    (p : Option ℕ) {s : Scheduler} {xs : List ℕ} (i : ℕ)
    → IsSched s xs
    → s.current ≡ p
    → Move exit (state_of s i) (state_of (exit_current p s) i)
unfolding exit_current terminate
exit-Move none i v at = stays
exit-Move (some c) i v at =
    stop-Move c (λ k. record k { state = terminated }) none terminated i exit_schedules v at
      (λ k. refl) refl refl exited

-- On a valid scheduler every operation makes at most one move with each task, and only a move that the
-- diagram has for it: `task_create` makes a terminated task ready, `task_sleep` a running one sleeping,
-- `task_exit` a running one terminated, and these two, `task_yield` and the timer interrupt may make a
-- ready task running or the running one ready. Before that the timer interrupt makes sleeping tasks
-- ready, and changes no other.
pub scheduler-Move :
    {s : Scheduler} {xs : List ℕ} (i ticks : ℕ) (stack_of : ℕ → ℕ) (name : List ℕ) (entry : ℕ)
    → IsSched s xs
    → let awake = wake_all max_tasks (tick_count s) in
      Move create (state_of s i) (state_of (task_create stack_of name entry s).1 i)
      × Move yield (state_of s i) (state_of (task_yield s) i)
      × Move sleep (state_of s i) (state_of (task_sleep ticks s) i)
      × Move exit (state_of s i) (state_of (task_exit s) i)
      × Move wake_up (state_of s i) (state_of awake i)
      × Move tick (state_of awake i) (state_of (scheduler_tick s) i)
unfolding task_create task_yield task_sleep task_exit scheduler_tick after_tick
scheduler-Move {s} {xs} i ticks stack_of name entry v =
    let awake = wake_all max_tasks (tick_count s) in
    let w =
      wake_all-IsSched max_tasks (same-IsSched s.next_task_id (tick_count s).system_ticks v) in
    (
      create_in-Move _ stack_of name entry s i
          (λ j e. is_terminated-true _ (free_slot-some max_tasks 0 s.tasks j e).0),
      Turn-Move yield_schedules (schedule-Turn s (IsSched-HeadReady xs v) i),
      sleep-Move s.current ticks i v refl,
      exit-Move s.current i v refl,
      Wakes-Move (wake_all-Wakes max_tasks (tick_count s) i),
      Turn-Move tick_schedules (charge_current-Turn awake.current i w),
    )
