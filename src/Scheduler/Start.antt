-- ===== src/Scheduler/Start.antt =====
-- `scheduler_init`: the invariant of the scheduler holds from the start.
use minicore_os.Base.{
  ℕ, zero, suc, ◌≡◌, ◌≤◌, ◌<◌, refl, none, [], arith, ◌==◌, ltb, ◌∙◌, ap, sym, Bool-cases, inl, inr,
}
use minicore_os.Scheduler.{
  Task, terminated, is_ready, is_running, max_tasks, Scheduler, clear_tasks, scheduler_init,
}
use minicore_os.Scheduler.Queue.{update_self, update_ne}
use minicore_os.Scheduler.States.{state_of}
use minicore_os.Scheduler.Invariant.{IsSched}

clear_tasks_states : (n : ℕ) (t : ℕ → Task) (i : ℕ) → i < n → (clear_tasks n t i).state ≡ terminated
unfolding clear_tasks
clear_tasks_states zero t i lt = absurd (omega arith)
clear_tasks_states (suc n) t i lt = elim (Bool-cases (i == n)) [
  | inl e ↦
      ap (λ j. (clear_tasks (suc n) t j).state) (ground arith)
      ∙ ap (λ (k : Task). k.state) (update_self (clear_tasks n t) n _)
  | inr e ↦
      ap (λ (k : Task). k.state) (update_ne (clear_tasks n t) n _ i (ground arith))
      ∙ clear_tasks_states n t i (ground arith)
]

clear_tasks_rest : (n : ℕ) (t : ℕ → Task) (i : ℕ) → n ≤ i → clear_tasks n t i ≡ t i
unfolding clear_tasks
clear_tasks_rest zero t i le = refl
clear_tasks_rest (suc n) t i le =
    update_ne (clear_tasks n t) n _ i (omega arith) ∙ clear_tasks_rest n t i (omega arith)

-- Whatever the table held, after `scheduler_init` every entry is terminated and the scheduler is
-- valid with an empty queue and no current task. Entries that the table does not have are taken as
-- terminated.
pub scheduler_init-IsSched :
    (s : Scheduler)
    → ((i : ℕ) → max_tasks ≤ i → state_of s i ≡ terminated)
    → IsSched (scheduler_init s) [] × ((i : ℕ) → state_of (scheduler_init s) i ≡ terminated)
unfolding scheduler_init
scheduler_init-IsSched s beyond = (
  record {
    queue = record { links = refl; tail = refl; distinct = tt };
    waiting = λ i. sym (ap is_ready (all i));
    active = λ i. sym (ap is_running (all i));
  },
  all,
)
  where
    all : (i : ℕ) → (clear_tasks max_tasks s.tasks i).state ≡ terminated
    all i = elim (Bool-cases (ltb i max_tasks)) [
      | inl e ↦ clear_tasks_states max_tasks s.tasks i (ground arith)
      | inr e ↦
          ap (λ (k : Task). k.state) (clear_tasks_rest max_tasks s.tasks i (ground arith))
          ∙ beyond i (ground arith)
    ]

pub current-scheduler_init : (s : Scheduler) → (scheduler_init s).current ≡ none
unfolding scheduler_init
current-scheduler_init s = refl
