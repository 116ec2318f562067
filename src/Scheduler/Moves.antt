-- ===== src/Scheduler/Moves.antt =====
-- The states of a task as a diagram: which move an operation of scheduler.c may make.
use minicore_os.Base.{
  ℕ, ◌≡◌, ◌≢◌, refl, true, false, Option, none, some, List, [], ◌∷◌, arith, ◌==◌, ◌∙◌, ap, subst,
  sym, if◌then◌else◌, Bool-cases, Option-cases, inl, inr,
}
use minicore_os.Scheduler.{
  Task, TaskState, ready, running, sleeping, terminated, is_ready, is_running, Scheduler, update,
  unlink_head, task_queue_remove_next, switch_to_task, preempt, dispatch, requeue, run_next,
  schedule,
}
use minicore_os.Scheduler.States.{state_of, state-task_queue_add, state-unlink_head, state-update}
use minicore_os.Scheduler.Invariant.{IsSched}

-- The operations; `scheduler_tick` is two of them: it wakes tasks, and may then call `schedule`.
pub data Operation : Type 0 where
  create yield sleep exit wake_up tick : Operation

-- the operations that call `schedule`
pub data Schedules : Operation → Type 0 where
  yield_schedules : Schedules yield
  sleep_schedules : Schedules sleep
  exit_schedules : Schedules exit
  tick_schedules : Schedules tick

-- The diagram: the moves that an operation may make with a task.
pub data Move : Operation → TaskState → TaskState → Type 0 where
  stays : {o : Operation} {v : TaskState} → Move o v v
  created : Move create terminated ready
  dispatched : {o : Operation} → Schedules o → Move o ready running
  preempted : {o : Operation} → Schedules o → Move o running ready
  slept : Move sleep running sleeping
  woken_up : Move wake_up sleeping ready
  exited : Move exit running terminated

-- What `schedule` may do to a task.
pub data Turn : TaskState → TaskState → Type 0 where
  keeps : {v : TaskState} → Turn v v
  starts : Turn ready running
  stops : Turn running ready

pub Turn-Move : {o : Operation} {v w : TaskState} → Schedules o → Turn v w → Move o v w
Turn-Move by keeps = stays
Turn-Move by starts = dispatched by
Turn-Move by stops = preempted by

pub HeadReady : Scheduler → Type 0
HeadReady s = (x : ℕ) → s.queue_head ≡ some x → state_of s x ≡ ready

is_ready-true : (v : TaskState) → is_ready v ≡ true → v ≡ ready
is_ready-true ready e = refl
is_ready-true running e = cc
is_ready-true sleeping e = cc
is_ready-true terminated e = cc

ready-ne-running : ready ≢ running
ready-ne-running e = cc

is_running-true : (v : TaskState) → is_running v ≡ true → v ≡ running
is_running-true running e = refl
is_running-true ready e = cc
is_running-true sleeping e = cc
is_running-true terminated e = cc

pub IsSched-HeadReady : {s : Scheduler} (xs : List ℕ) → IsSched s xs → HeadReady s
unfolding HeadReady
IsSched-HeadReady {s} [] v x e = cc v.queue.links
IsSched-HeadReady {s} (y ∷ xs) v x e =
    is_ready-true (state_of s x) (ground (arith, v.queue.links.0, v.waiting x))

-- a task whose state an operation sets to `w`, where it was `v`
set-Turn :
    (s : Scheduler) (c i : ℕ) (v w : TaskState)
    → state_of s c ≡ v
    → Turn v w
    → Turn (state_of s i) (if i == c then w else state_of s i)
set-Turn s c i v w e t = elim (Bool-cases (i == c)) [
  | inl same ↦ rw same (subst (λ u. Turn u w) (sym (ap (state_of s) (ground arith) ∙ e)) t)
  | inr other ↦ rw other keeps
]

requeue-Turn :
    (p : Option ℕ) (s : Scheduler) (i : ℕ) → Turn (state_of s i) (state_of (requeue p s) i)
unfolding requeue
requeue-Turn none s i = keeps
requeue-Turn (some c) s i = elim (Bool-cases (is_running (state_of s c))) [
  | inl e ↦
      let s' : Scheduler = record s { tasks = update s.tasks c preempt } in
      rw e (
        subst (Turn (state_of s i)) (sym (state-task_queue_add s' c i ∙ state-update s c preempt i))
          (set-Turn s c i running ready (is_running-true _ e) stops))
  | inr e ↦ rw e keeps
]

schedule-none : (s : Scheduler) → s.queue_head ≡ none → schedule s ≡ s
unfolding schedule run_next task_queue_remove_next
schedule-none s e = rw e refl

schedule-some :
    (s : Scheduler) (x : ℕ)
    → s.queue_head ≡ some x
    → schedule s ≡ switch_to_task (requeue s.current (unlink_head s x)) x
unfolding schedule run_next task_queue_remove_next unlink_head
schedule-some s x e = rw e refl

-- the head of the queue, and any other task
head-Turn :
    (s s2 : Scheduler) (x i : ℕ)
    → state_of s x ≡ ready
    → Turn (state_of s i) (state_of s2 i)
    → Turn (state_of s i) (if i == x then running else state_of s2 i)
head-Turn s s2 x i e t = elim (Bool-cases (i == x)) [
  | inl same ↦
      rw same (subst (λ u. Turn u running) (sym (ap (state_of s) (ground arith) ∙ e)) starts)
  | inr other ↦ rw other t
]

pub schedule-Turn :
    (s : Scheduler) → HeadReady s → (i : ℕ) → Turn (state_of s i) (state_of (schedule s) i)
unfolding HeadReady switch_to_task
schedule-Turn s h i = elim (Option-cases s.queue_head) [
  | inl e ↦ subst (λ w. Turn (state_of s i) (state_of w i)) (sym (schedule-none s e)) keeps
  | inr (x, e) ↦
      let s1 = unlink_head s x in
      let s2 = requeue s.current s1 in
      let t =
        subst (λ v. Turn v (state_of s2 i)) (state-unlink_head s x i)
          (requeue-Turn s.current s1 i) in
      subst (λ w. Turn (state_of s i) (state_of w i)) (sym (schedule-some s x e))
        (subst (Turn (state_of s i)) (sym (state-update s2 x dispatch i))
          (head-Turn s s2 x i (h x e) t))
]

Turn-rest : {v w : TaskState} → Turn v w → is_ready v ≡ false → is_running v ≡ false → w ≡ v
Turn-rest keeps e e' = refl
Turn-rest starts e e' = cc
Turn-rest stops e e' = cc

current-running :
    {s : Scheduler} {xs : List ℕ} (c : ℕ)
    → IsSched s xs
    → s.current ≡ some c
    → state_of s c ≡ running
current-running {s} c v at = is_running-true _ (ground (arith, v.active c))

-- The current task stops in the state `w`, and `schedule` runs.
pub stop-Move :
    {o : Operation} {s : Scheduler} {xs : List ℕ} (c : ℕ) (f : Task → Task) (p : Option ℕ)
    (w : TaskState) (i : ℕ)
    → Schedules o
    → IsSched s xs
    → s.current ≡ some c
    → ((k : Task) → (f k).state ≡ w)
    → is_ready w ≡ false
    → is_running w ≡ false
    → Move o running w
    → Move o
        (state_of s i)
        (state_of (schedule (record s { tasks = update s.tasks c f; current = p })) i)
unfolding HeadReady
stop-Move {o} {s} {xs} c f p w i by v at sets rests stands move =
    let s' : Scheduler = record s { tasks = update s.tasks c f; current = p } in
    let runs = current-running c v at in
    let heads : (x : ℕ) → s'.queue_head ≡ some x → state_of s' x ≡ ready =
      λ x e. state-update s c f x ∙ other_head x (IsSched-HeadReady xs v x e) runs in
    let t = schedule-Turn s' heads i in
    elim (Bool-cases (i == c)) [
      | inl same ↦
          let is_c : i ≡ c = ground arith in
          let stopped : state_of s' i ≡ w = state-update s c f i ∙ rw same (sets (s.tasks c)) in
          let after : state_of (schedule s') i ≡ w =
            Turn-rest t (ap is_ready stopped ∙ rests) (ap is_running stopped ∙ stands) ∙ stopped in
          subst (λ u. Move o u (state_of (schedule s') i)) (sym (ap (state_of s) is_c ∙ runs))
            (subst (λ u. Move o running u) (sym after) move)
      | inr other ↦
          let kept : state_of s' i ≡ state_of s i = state-update s c f i ∙ rw other refl in
          subst (λ u. Move o u (state_of (schedule s') i)) kept (Turn-Move by t)
    ]
  where
    other_head :
        (x : ℕ)
        → state_of s x ≡ ready
        → state_of s c ≡ running
        → (if x == c then (f (s.tasks c)).state else state_of s x) ≡ ready
    other_head x e e' = elim (Bool-cases (x == c)) [
      | inl same ↦ absurd (ready-ne-running (sym e ∙ ap (state_of s) (ground arith) ∙ e'))
      | inr other ↦ rw other e
    ]
