-- ===== src/Scheduler.antt =====
-- The cooperative scheduler of scheduler.c: a table of task control blocks, a ready queue that is
-- linked through them, and the current task. A `task_t*` is the index of its table entry, NULL is
-- `none`.
pub mod Queue
pub mod Invariant
pub mod States
pub mod Lifecycle
pub mod Switching
pub mod Tick
pub mod Start
pub mod Fairness
pub mod Times
pub mod Turns
pub mod Moves
pub mod Diagram
pub mod Demo
mod Tests
use minicore_os.Base.{
  ℕ, zero, suc, ◌+◌, ◌-◌, Bool, true, false, ◌&&◌, Option, none, some, List, [], ◌∷◌, leb, ltb,
  ◌==◌, if◌then◌else◌, wrap32, sub32, set,
}

-- MAX_TASKS and TASK_STACK_SIZE
abbrev pub max_tasks : ℕ
max_tasks = 8

abbrev pub task_stack_size : ℕ
task_stack_size = 4096

-- `task_state_t`
pub data TaskState : Type 0 where
  ready running sleeping terminated : TaskState

abbrev pub is_ready : TaskState → Bool
is_ready ready = true
is_ready _ = false

abbrev pub is_running : TaskState → Bool
is_running running = true
is_running _ = false

abbrev pub is_sleeping : TaskState → Bool
is_sleeping sleeping = true
is_sleeping _ = false

abbrev pub is_terminated : TaskState → Bool
is_terminated terminated = true
is_terminated _ = false

-- `task_t`. The stack itself is not read by the scheduler.
pub record Task : Type 0 where
  pub id : ℕ
  pub name : List ℕ
  pub state : TaskState
  pub esp : ℕ
  pub ebp : ℕ
  pub ebx : ℕ
  pub esi : ℕ
  pub edi : ℕ
  pub eflags : ℕ
  pub eip : ℕ
  pub time_slice : ℕ
  pub time_remaining : ℕ
  pub sleep_until : ℕ
  pub next : Option ℕ

-- The file's variables. Only the entries below `max_tasks` stand for the table.
pub record Scheduler : Type 0 where
  pub tasks : ℕ → Task
  pub queue_head : Option ℕ
  pub queue_tail : Option ℕ
  pub current : Option ℕ
  pub next_task_id : ℕ
  pub system_ticks : ℕ

-- A write to the fields of `tasks[i]`.
unfoldable pub update : (ℕ → Task) → ℕ → (Task → Task) → ℕ → Task
update t i f j = if j == i then f (t i) else t j

abbrev pub set_next : (ℕ → Task) → ℕ → Option ℕ → ℕ → Task
set_next t i p = update t i (λ k. record k { next = p })

abbrev pub set_state : (ℕ → Task) → ℕ → TaskState → ℕ → Task
set_state t i v = update t i (λ k. record k { state = v })

clear_tasks : ℕ → (ℕ → Task) → ℕ → Task
clear_tasks zero t = t
clear_tasks (suc n) t = update (clear_tasks n t) n (λ k. record k { state = terminated; id = 0 })

-- `scheduler_init` leaves `next_task_id` alone.
pub scheduler_init : Scheduler → Scheduler
scheduler_init s = record s {
  tasks = clear_tasks max_tasks s.tasks;
  queue_head = none;
  queue_tail = none;
  current = none;
  system_ticks = 0;
}

pub task_queue_add : Scheduler → ℕ → Scheduler
task_queue_add s i =
    let t = set_next s.tasks i none in
    elim s.queue_tail [
      | some last ↦ record s { tasks = set_next t last (some i); queue_tail = some i }
      | none ↦ record s { tasks = t; queue_head = some i; queue_tail = some i }
    ]

-- the state that `task_queue_remove_next` leaves when it returns the head `i`
pub unlink_head : Scheduler → ℕ → Scheduler
unlink_head s i =
    let head = (s.tasks i).next in
    record s {
      tasks = set_next s.tasks i none;
      queue_head = head;
      queue_tail = elim head [ none ↦ none | some j ↦ s.queue_tail ];
    }

pub task_queue_remove_next : Scheduler → Option ℕ × Scheduler
task_queue_remove_next s = elim s.queue_head [
  | none ↦ (none, s)
  | some i ↦ (some i, unlink_head s i)
]

-- what `schedule` does to the task that it puts back
abbrev pub preempt : Task → Task
preempt k = record k { state = ready; time_remaining = k.time_slice }

-- what `switch_to_task` does to its task
abbrev pub dispatch : Task → Task
dispatch k = record k { state = running; time_remaining = k.time_slice }

pub switch_to_task : Scheduler → ℕ → Scheduler
switch_to_task s i = record s { tasks = update s.tasks i dispatch; current = some i }

-- `schedule` puts a current task that is still running back into the queue.
pub requeue : Option ℕ → Scheduler → Scheduler
requeue none s = s
requeue (some c) s =
    if is_running (s.tasks c).state
    then task_queue_add (record s { tasks = update s.tasks c preempt }) c
    else s

-- `schedule` behind the removal of the next task
pub run_next : Option ℕ × Scheduler → Scheduler
run_next (none, s) = s
run_next (some i, s) = switch_to_task (requeue s.current s) i

pub schedule : Scheduler → Scheduler
schedule s = run_next (task_queue_remove_next s)

pub task_yield : Scheduler → Scheduler
task_yield s = schedule s

-- `current_task->state = TASK_SLEEPING; current_task->sleep_until = system_ticks + ticks`
pub put_to_sleep : ℕ → ℕ → Scheduler → Scheduler
put_to_sleep ticks c s = record s {
  tasks =
      update s.tasks c
        (λ k. record k { state = sleeping; sleep_until = wrap32 (s.system_ticks + ticks) });
}

sleep_current : Option ℕ → ℕ → Scheduler → Scheduler
sleep_current none ticks s = s
sleep_current (some c) ticks s = schedule (put_to_sleep ticks c s)

pub task_sleep : ℕ → Scheduler → Scheduler
task_sleep ticks s = sleep_current s.current ticks s

pub terminate : ℕ → Scheduler → Scheduler
terminate c s = record s { tasks = set_state s.tasks c terminated; current = none }

exit_current : Option ℕ → Scheduler → Scheduler
exit_current none s = s
exit_current (some c) s = schedule (terminate c s)

pub task_exit : Scheduler → Scheduler
task_exit s = exit_current s.current s

-- one round of the loop of `scheduler_tick`
pub wake : ℕ → Scheduler → Scheduler
wake i s =
    if is_sleeping (s.tasks i).state && leb (s.tasks i).sleep_until s.system_ticks
    then task_queue_add (record s { tasks = set_state s.tasks i ready }) i
    else s

-- `for (i = 0; i < n; i++)`
pub wake_all : ℕ → Scheduler → Scheduler
wake_all zero s = s
wake_all (suc n) s = wake n (wake_all n s)

-- `current_task->time_remaining--`
pub charge : ℕ → Scheduler → Scheduler
charge c s = record s {
  tasks = update s.tasks c (λ k. record k { time_remaining = sub32 k.time_remaining 1 });
}

pub charge_current : Option ℕ → Scheduler → Scheduler
charge_current none s = s
charge_current (some c) s =
    let s' = charge c s in
    if ltb 100 s.system_ticks
    then (if (s'.tasks c).time_remaining == 0 then schedule s' else s')
    else s

-- `scheduler_tick` behind the count of the tick
pub after_tick : Scheduler → Scheduler
after_tick s = charge_current s.current s

pub scheduler_tick : Scheduler → Scheduler
scheduler_tick s =
    after_tick (wake_all max_tasks (record s { system_ticks = wrap32 (s.system_ticks + 1) }))

-- `for (i = 0; i < 32 && name[i]; i++) task->name[i] = name[i]`; a text ends at its first 0 or at the
-- end of the list.
pub copy_name : List ℕ → List ℕ → List ℕ
copy_name [] src = []
copy_name (b ∷ bs) [] = b ∷ bs
copy_name (b ∷ bs) (c ∷ cs) = let rest = copy_name bs cs in if c == 0 then b ∷ bs else c ∷ rest

-- The first table entry from `i` on, of `n`, whose task is terminated.
pub free_slot : ℕ → ℕ → (ℕ → Task) → Option ℕ
free_slot zero i t = none
free_slot (suc n) i t =
    let rest = free_slot n (i + 1) t in if is_terminated (t i).state then some i else rest

-- the fields that `task_create` sets; `stack` is the address of the entry's stack
pub init_task : ℕ → List ℕ → ℕ → ℕ → Task → Task
init_task id name entry stack k = record k {
  id = id;
  name = set (copy_name k.name name) 31 0;
  state = ready;
  time_slice = 10;
  time_remaining = 10;
  sleep_until = 0;
  esp = wrap32 (stack + task_stack_size - 4);
  ebp = wrap32 (stack + task_stack_size - 4);
  eip = entry;
  eflags = 0x202;
  ebx = 0;
  esi = 0;
  edi = 0;
}

-- `stack_of` gives the address of each entry's stack, which the linker chooses.
pub create_in : Option ℕ → (stack_of : ℕ → ℕ) → List ℕ → ℕ → Scheduler → ℕ × Scheduler
create_in none stack_of name entry s = (0, s)
create_in (some i) stack_of name entry s = (
  s.next_task_id,
  task_queue_add
      (record s {
        tasks = update s.tasks i (init_task s.next_task_id name entry (stack_of i));
        next_task_id = wrap32 (s.next_task_id + 1);
      })
      i,
)

-- `stack_of` gives the address of each entry's stack, which the linker chooses.
pub task_create : (stack_of : ℕ → ℕ) → List ℕ → ℕ → Scheduler → ℕ × Scheduler
task_create stack_of name entry s = create_in (free_slot max_tasks 0 s.tasks) stack_of name entry s
