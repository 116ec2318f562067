-- ===== src/Scheduler/Tests.antt =====
-- The theorems of the scheduler at small task tables.
use minicore_os.Base.{
  ℕ, ◌≡◌, ◌⊎◌, ◌<◌, ◌≤◌, refl, false, none, some, [], ◌∷◌, arith, ◌==◌, if◌then◌else◌, sub32,
}
use minicore_os.Scheduler.{
  Task, TaskState, ready, running, sleeping, terminated, is_terminated, max_tasks, Scheduler,
  put_to_sleep, schedule, task_yield, wake_all, task_sleep, task_exit, charge, after_tick,
  scheduler_tick, task_create, copy_name,
}
use minicore_os.Scheduler.Queue.{IsQueue}
use minicore_os.Scheduler.States.{state_of}
use minicore_os.Scheduler.Invariant.{IsSched, schedule_round_robin}
use minicore_os.Scheduler.Lifecycle.{CreatedAt, task_create_contract}
use minicore_os.Scheduler.Turns.{ticks, ticks_fair}
use minicore_os.Scheduler.Switching.{task_exit-IsSched, task_sleep-IsSched, task_sleep_alone}
use minicore_os.Scheduler.Moves.{create, yield, sleep, exit, wake_up, tick, Move}
use minicore_os.Scheduler.Diagram.{scheduler-Move}
use minicore_os.Scheduler.Tick.{
  woken, Ticked, tick_count, scheduler_tick_contract, charge_current_alone,
}

abbrev task_in : TaskState → ℕ → Task
task_in v left = record {
  id = 1;
  name = 103 ∷ (114 ∷ (101 ∷ (101 ∷ (0 ∷ []))));
  state = v;
  esp = 0;
  ebp = 0;
  ebx = 0;
  esi = 0;
  edi = 0;
  eflags = 0x202;
  eip = 0;
  time_slice = 10;
  time_remaining = left;
  sleep_until = 101;
  next = none;
}

-- Task 0 runs, task 1 waits and task 2 sleeps until tick 101.
abbrev busy : Scheduler
busy = record {
  tasks = λ i.
      if i == 0
      then task_in running 1
      else if i == 1
      then task_in ready 10
      else if i == 2
      then task_in sleeping 10
      else task_in terminated 0;
  queue_head = some 1;
  queue_tail = some 1;
  current = some 0;
  next_task_id = 4;
  system_ticks = 100;
}

busy-IsSched : IsSched busy (1 ∷ [])
busy-IsSched = record {
  queue = record { links = (refl, refl); tail = refl; distinct = (refl, tt) };
  waiting = λ i. ground arith;
  active = λ i. ground arith;
}

-- Task 0 runs alone, with no time left.
abbrev single : Scheduler
single = record {
  tasks = λ i. if i == 0 then task_in running 0 else task_in terminated 0;
  queue_head = none;
  queue_tail = none;
  current = some 0;
  next_task_id = 2;
  system_ticks = 200;
}

single-IsQueue : IsQueue single []
single-IsQueue = record { links = refl; tail = refl; distinct = tt }

-- Task 0 runs, task 1 waits and task 2 waits behind it; the other entries have never been used.
abbrev crowded : Scheduler
crowded = record {
  tasks = λ i.
      if i == 0
      then task_in running 1
      else if i == 1
      then record (task_in ready 10) { next = some 2 }
      else if i == 2
      then task_in ready 10
      else record (task_in terminated 0) { time_slice = 0; eflags = 0; sleep_until = 0 };
  queue_head = some 1;
  queue_tail = some 2;
  current = some 0;
  next_task_id = 4;
  system_ticks = 100;
}

crowded-IsSched : IsSched crowded (1 ∷ (2 ∷ []))
crowded-IsSched = record {
  queue = record { links = (refl, (refl, refl)); tail = refl; distinct = (refl, (refl, tt)) };
  waiting = λ i. ground arith;
  active = λ i. ground arith;
}

ticks_fair_example : (n : ℕ) × (n ≤ 11) × ((ticks n crowded).current ≡ some 2)
ticks_fair_example =
    ticks_fair 10 0 0 2 (1 ∷ []) [] crowded-IsSched refl refl (omega arith, omega arith, tt)
      (omega arith) (omega arith)

schedule_round_robin_example : IsSched (schedule busy) (0 ∷ []) × ((schedule busy).current ≡ some 1)
schedule_round_robin_example = schedule_round_robin 0 busy-IsSched refl

task_create_contract_example :
    ((task_create (λ i. i) (105 ∷ []) 7 busy ≡ (0, busy))
      × ((k : ℕ) → k < max_tasks → is_terminated (state_of busy k) ≡ false))
    ⊎ (i : ℕ) × CreatedAt busy
        (1 ∷ [])
        i
        (task_create (λ j. j) (105 ∷ []) 7 busy).0
        (task_create (λ j. j) (105 ∷ []) 7 busy).1
task_create_contract_example = task_create_contract (λ i. i) (105 ∷ []) 7 busy (1 ∷ []) busy-IsSched

task_exit-IsSched_example : IsSched (task_exit busy) [] × ((task_exit busy).current ≡ some 1)
task_exit-IsSched_example = task_exit-IsSched 0 busy-IsSched refl

task_sleep-IsSched_example :
    IsSched (task_sleep 50 busy) [] × ((task_sleep 50 busy).current ≡ some 1)
task_sleep-IsSched_example = task_sleep-IsSched 0 50 busy-IsSched refl

task_sleep_alone_example :
    (task_sleep 50 single ≡ put_to_sleep 50 0 single)
    × ((task_sleep 50 single).current ≡ some 0)
    × (state_of (task_sleep 50 single) 0 ≡ sleeping)
task_sleep_alone_example = task_sleep_alone single 0 50 single-IsQueue refl

scheduler_tick_contract_example :
    Ticked busy (scheduler_tick busy) (1 ∷ woken max_tasks (tick_count busy))
scheduler_tick_contract_example = scheduler_tick_contract busy-IsSched

charge_current_alone_example :
    (after_tick single ≡ charge 0 single)
    × (((after_tick single).tasks 0).time_remaining ≡ sub32 0 1)
charge_current_alone_example = charge_current_alone 0 single-IsQueue refl (omega arith)

-- A new name is not ended behind its last letter, so the rest of the old one stays.
copy_name_test :
    copy_name (103 ∷ (114 ∷ (101 ∷ (101 ∷ (0 ∷ []))))) (105 ∷ (0 ∷ []))
    ≡ 105 ∷ (114 ∷ (101 ∷ (101 ∷ (0 ∷ []))))
unfolding copy_name
copy_name_test = refl

scheduler-Move_example :
    let awake = wake_all max_tasks (tick_count busy) in
    Move create (state_of busy 1) (state_of (task_create (λ j. j) (105 ∷ []) 7 busy).1 1)
    × Move yield (state_of busy 1) (state_of (task_yield busy) 1)
    × Move sleep (state_of busy 1) (state_of (task_sleep 50 busy) 1)
    × Move exit (state_of busy 1) (state_of (task_exit busy) 1)
    × Move wake_up (state_of busy 1) (state_of awake 1)
    × Move tick (state_of awake 1) (state_of (scheduler_tick busy) 1)
scheduler-Move_example = scheduler-Move 1 50 (λ j. j) (105 ∷ []) 7 busy-IsSched
