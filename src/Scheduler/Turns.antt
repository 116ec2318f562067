-- ===== src/Scheduler/Turns.antt =====
-- The timer is fair: while the ticks are counted, a task that waits gets the processor in a bounded time.
use minicore_os.Base.{
  ℕ, zero, suc, ◌+◌, ◌-◌, ◌*◌, ◌≡◌, ◌≤◌, ◌<◌, refl, Bool, true, false, some, List, [], ◌∷◌, ◌++◌,
  append_assoc, arith, ◌==◌, ltb, ◌∙◌, ap, subst, sym, if◌then◌else◌, sub32, length,
}
use minicore_os.Scheduler.{
  Task, max_tasks, Scheduler, schedule, wake_all, charge, charge_current, after_tick,
  scheduler_tick,
}
use minicore_os.Scheduler.Queue.{update_self}
use minicore_os.Scheduler.Invariant.{IsSched, schedule_round_robin}
use minicore_os.Scheduler.Lifecycle.{same-IsSched}
use minicore_os.Scheduler.Tick.{woken, tick_count, wake_all-IsSched, charge-IsSched, Kept-wake_all}
use minicore_os.Scheduler.Times.{slice_of, left_of, SameTimes-wake_all, slice-update, schedule-left}

-- `n` timer interrupts
abbrev pub ticks : ℕ → Scheduler → Scheduler
ticks zero s = s
ticks (suc n) s = ticks n (scheduler_tick s)

-- What a tick does not change: the slices, but for the clock that it counts.
record Later (s s' : Scheduler) : Type 0 where
  slices : (j : ℕ) → slice_of s' j ≡ slice_of s j
  clock : s'.system_ticks ≡ s.system_ticks + 1

module _ {s : Scheduler} {zs : List ℕ} (c : ℕ) (v : IsSched s zs) (at : s.current ≡ some c)
    (started : 100 ≤ s.system_ticks) (room : s.system_ticks + 1 < 4294967296) where
  abbrev awake : Scheduler
  awake = wake_all max_tasks (tick_count s)

  abbrev charged : Scheduler
  charged = charge c awake

  abbrev queued : List ℕ
  queued = zs ++ woken max_tasks (tick_count s)

  awake-current : awake.current ≡ some c
  awake-current = (Kept-wake_all max_tasks (tick_count s)).current ∙ at

  awake-clock : awake.system_ticks ≡ s.system_ticks + 1
  awake-clock = (Kept-wake_all max_tasks (tick_count s)).ticks ∙ omega arith

  charged-IsSched : IsSched charged queued
  charged-IsSched = charge-IsSched c (
      wake_all-IsSched {s = tick_count s} max_tasks
        (same-IsSched s.next_task_id (tick_count s).system_ticks v))

  charged-left : left_of charged c ≡ sub32 (left_of s c) 1
  unfolding charge
  charged-left =
      ap (λ (k : Task). k.time_remaining)
        (update_self awake.tasks c (λ k. record k { time_remaining = sub32 k.time_remaining 1 }))
      ∙ ap (λ n. sub32 n 1) ((SameTimes-wake_all max_tasks (tick_count s)).lefts c)

  charged-Later : Later s charged
  unfolding charge
  charged-Later = record {
    slices = λ j.
        slice-update awake.tasks c (λ k. record k { time_remaining = sub32 k.time_remaining 1 }) j
          (λ k. refl)
        ∙ (SameTimes-wake_all max_tasks (tick_count s)).slices j;
    clock = awake-clock;
  }

  tick_is : scheduler_tick s ≡ (if left_of charged c == 0 then schedule charged else charged)
  unfolding scheduler_tick after_tick charge_current
  tick_is =
      let late : ltb 100 awake.system_ticks ≡ true = let clock = awake-clock in ground arith in
      ap (λ p. charge_current p awake) awake-current
      ∙ ap
          (λ (b : Bool).
            if b then (if left_of charged c == 0 then schedule charged else charged) else awake)
          late

  -- The slice is not over: the current task stays.
  tick-stays :
      (r : ℕ)
      → left_of s c ≡ suc (suc r)
      → suc (suc r) < 4294967296
      → IsSched (scheduler_tick s) queued
        × ((scheduler_tick s).current ≡ some c)
        × (left_of (scheduler_tick s) c ≡ suc r)
        × Later s (scheduler_tick s)
  unfolding charge
  tick-stays r left small =
      let now : left_of charged c ≡ suc r = charged-left ∙ ap (λ n. sub32 n 1) left ∙ omega arith in
      let more : (left_of charged c == 0) ≡ false = ground arith in
      subst (λ s'. IsSched s' queued × (s'.current ≡ some c) × (left_of s' c ≡ suc r) × Later s s')
        (sym (tick_is ∙ ap (λ (b : Bool). if b then schedule charged else charged) more))
        (charged-IsSched, awake-current, now, charged-Later)

  -- The slice is over: the first of the queue takes its place.
  tick-switches :
      (z : ℕ) (rest : List ℕ)
      → left_of s c ≡ 1
      → queued ≡ z ∷ rest
      → IsSched (scheduler_tick s) (rest ++ (c ∷ []))
        × ((scheduler_tick s).current ≡ some z)
        × (left_of (scheduler_tick s) z ≡ slice_of s z)
        × Later s (scheduler_tick s)
  unfolding charge
  tick-switches z rest left q =
      let over : (left_of charged c == 0) ≡ true =
        let now : left_of charged c ≡ 0 = charged-left ∙ ap (λ n. sub32 n 1) left ∙ omega arith in
        ground arith in
      let w = subst (IsSched charged) q charged-IsSched in
      let (sched, here) = schedule_round_robin {s = charged} c w awake-current in
      let (same, whole) = schedule-left w in
      subst
        (λ s'.
          IsSched s' (rest ++ (c ∷ []))
          × (s'.current ≡ some z)
          × (left_of s' z ≡ slice_of s z)
          × Later s s')
        (sym (tick_is ∙ ap (λ (b : Bool). if b then schedule charged else charged) over))
        (
          sched,
          here,
          whole ∙ charged-Later.slices z,
          record {
            slices = λ j. same.slices j ∙ charged-Later.slices j;
            clock = same.ticks ∙ charged-Later.clock;
          },
        )

-- Each of the tasks `xs` has a slice, of at most `most` ticks.
abbrev pub HasSlices : ℕ → Scheduler → List ℕ → Type 0
HasSlices most s [] = Unit
HasSlices most s (x ∷ xs) =
    (0 < (s.tasks x).time_slice) × ((s.tasks x).time_slice ≤ most) × HasSlices most s xs

HasSlices-Later :
    (most : ℕ) {s s' : Scheduler} (xs : List ℕ)
    → HasSlices most s xs
    → Later s s'
    → HasSlices most s' xs
HasSlices-Later most [] h l = tt
HasSlices-Later most (x ∷ xs) (some_left, bounded, h) l =
    let (some_left', bounded') =
      subst (λ n. (0 < n) × (n ≤ most)) (sym (l.slices x)) (some_left, bounded) in
    (some_left', bounded', HasSlices-Later most xs h l)

-- On a valid scheduler with a current task that has time left and at least 100 ticks counted: a task
-- `x` with the tasks `xs` in front of it in the queue, each with a slice of 1 to `most` ticks, becomes
-- the current one, within the ticks that the current task has left and `most` more for each of `xs`,
-- where the clock does not reach 2 ^ 32 before. Nothing is asked of the slices of other entries, used
-- or not.
pub ticks_fair :
    (most : ℕ) {s : Scheduler} (c r x : ℕ) (xs ys : List ℕ)
    → IsSched s (xs ++ (x ∷ ys))
    → s.current ≡ some c
    → (s.tasks c).time_remaining ≡ suc r
    → HasSlices most s xs
    → 100 ≤ s.system_ticks
    → s.system_ticks + (suc r + most * length xs) < 4294967296
    → (n : ℕ) × (n ≤ suc r + most * length xs) × ((ticks n s).current ≡ some x)
ticks_fair most {s} c (suc r) x xs ys v at left h started room =
    let (w, here, left', l) = tick-stays c v at started (omega arith) r left (omega arith) in
    let clock = l.clock in
    let q = append_assoc xs (x ∷ ys) (woken max_tasks (tick_count s)) in
    let (n, le, done_so) =
      ticks_fair most {s = scheduler_tick s} c r x xs (ys ++ woken max_tasks (tick_count s))
        (subst (IsSched (scheduler_tick s)) q w) here left' (HasSlices-Later most xs h l)
        (omega arith) (omega arith) in
    (suc n, omega arith, done_so)
ticks_fair most {s} c zero x [] ys v at left h started room =
    let (w, here, _, _) =
      tick-switches c v at started (omega arith) x (ys ++ woken max_tasks (tick_count s)) left
        refl in
    (1, omega arith, here)
ticks_fair most {s} c zero x (z ∷ xs) ys v at left h started room =
    let rest : List ℕ = (xs ++ (x ∷ ys)) ++ woken max_tasks (tick_count s) in
    let (w, here, left', l) = tick-switches c v at started (omega arith) z rest left refl in
    let clock = l.clock in
    let (some_left, bounded, h') = h in
    let ys' : List ℕ = (ys ++ woken max_tasks (tick_count s)) ++ (c ∷ []) in
    let q : rest ++ (c ∷ []) ≡ xs ++ (x ∷ ys') =
      ap (λ k. k ++ (c ∷ [])) (append_assoc xs (x ∷ ys) (woken max_tasks (tick_count s)))
      ∙ append_assoc xs (x ∷ (ys ++ woken max_tasks (tick_count s))) (c ∷ []) in
    let (n, le, done_so) =
      ticks_fair most {s = scheduler_tick s} z ((s.tasks z).time_slice - 1) x xs ys'
        (subst (IsSched (scheduler_tick s)) q w) here (left' ∙ omega arith)
        (HasSlices-Later most xs h' l) (omega arith) (omega arith) in
    (suc n, omega arith, done_so)
