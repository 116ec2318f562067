-- ===== src/Scheduler/States.antt =====
-- Which task states the operations change.
use minicore_os.Base.{
  ℕ, ◌≡◌, Option, none, some, arith, ◌==◌, ◌∙◌, if◌then◌else◌, Option-cases, inl, inr,
}
use minicore_os.Scheduler.{
  Task, TaskState, Scheduler, update, set_next, task_queue_add, unlink_head,
}

abbrev pub state_of : Scheduler → ℕ → TaskState
state_of s i = (s.tasks i).state

state-set_next :
    (t : ℕ → Task) (i : ℕ) (p : Option ℕ) (j : ℕ) → (set_next t i p j).state ≡ (t j).state
unfolding update
state-set_next t i p j = ground arith

pub state-task_queue_add :
    (s : Scheduler) (i j : ℕ) → state_of (task_queue_add s i) j ≡ state_of s j
unfolding task_queue_add
state-task_queue_add s i j = elim (Option-cases s.queue_tail) [
  | inl e ↦ rw e (state-set_next s.tasks i none j)
  | inr (z, e) ↦
      rw e (state-set_next (set_next s.tasks i none) z (some i) j ∙ state-set_next s.tasks i none j)
]

pub current-task_queue_add : (s : Scheduler) (i : ℕ) → (task_queue_add s i).current ≡ s.current
unfolding task_queue_add
current-task_queue_add s i = ground arith

pub ticks-task_queue_add :
    (s : Scheduler) (i : ℕ) → (task_queue_add s i).system_ticks ≡ s.system_ticks
unfolding task_queue_add
ticks-task_queue_add s i = ground arith

pub state-unlink_head : (s : Scheduler) (x j : ℕ) → state_of (unlink_head s x) j ≡ state_of s j
unfolding unlink_head
state-unlink_head s x j = state-set_next s.tasks x none j

pub state-update :
    (s : Scheduler) (i : ℕ) (f : Task → Task) (j : ℕ)
    → (update s.tasks i f j).state ≡ (if j == i then (f (s.tasks i)).state else state_of s j)
unfolding update
state-update s i f j = ground arith
