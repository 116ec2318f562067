-- ===== src/Scheduler/Tick.antt =====
-- The timer interrupt `scheduler_tick` of scheduler.c and `scheduler_init`: which tasks wake up, when
-- the processor is handed on, and that the invariant of the scheduler holds from the start.
use minicore_os.Base.{
  ℕ, zero, suc, ◌+◌, ◌≡◌, ◌≤◌, ◌<◌, refl, Bool, true, false, ◌&&◌, Option, none, some, List, [],
  ◌∷◌, ◌++◌, append-nil, append_assoc, arith, ◌==◌, leb, ltb, ◌∙◌, ap, subst, sym, if◌then◌else◌,
  Bool-cases, Option-cases, inl, inr, wrap32, sub32,
}
use minicore_os.Scheduler.{
  Task, ready, is_ready, is_running, is_sleeping, max_tasks, Scheduler, update, set_next, set_state,
  task_queue_add, schedule, wake, wake_all, charge, charge_current, after_tick, scheduler_tick,
}
use minicore_os.Scheduler.Queue.{IsQueue, update-IsQueue, update_self, update_ne}
use minicore_os.Scheduler.States.{
  state_of, state-task_queue_add, current-task_queue_add, ticks-task_queue_add, state-update,
}
use minicore_os.Scheduler.Invariant.{IsSched, schedule_round_robin, schedule-nil}
use minicore_os.Scheduler.Lifecycle.{enqueue-IsSched, same-IsSched, not_awake}

abbrev pub due : Scheduler → ℕ → Bool
due s i = is_sleeping (s.tasks i).state && leb (s.tasks i).sleep_until s.system_ticks

-- The entries below `n` whose task sleeps and is due, from the first to the last.
abbrev pub woken : ℕ → Scheduler → List ℕ
woken zero s = []
woken (suc n) s = if due s n then woken n s ++ (n ∷ []) else woken n s

until-set_next :
    (t : ℕ → Task) (i : ℕ) (p : Option ℕ) (j : ℕ)
    → (set_next t i p j).sleep_until ≡ (t j).sleep_until
unfolding update
until-set_next t i p j = ground arith

until-task_queue_add :
    (s : Scheduler) (i j : ℕ) → ((task_queue_add s i).tasks j).sleep_until ≡ (s.tasks j).sleep_until
unfolding task_queue_add
until-task_queue_add s i j = elim (Option-cases s.queue_tail) [
  | inl e ↦ rw e (until-set_next s.tasks i none j)
  | inr (z, e) ↦
      rw e (until-set_next (set_next s.tasks i none) z (some i) j ∙ until-set_next s.tasks i none j)
]

-- A round of the loop does not change the other tasks, the current one and the clock.
pub record Kept (s s' : Scheduler) (n : ℕ) : Type 0 where
  states : (j : ℕ) → n ≤ j → state_of s' j ≡ state_of s j
  times : (j : ℕ) → n ≤ j → (s'.tasks j).sleep_until ≡ (s.tasks j).sleep_until
  pub current : s'.current ≡ s.current
  pub ticks : s'.system_ticks ≡ s.system_ticks

Kept-wake : (i : ℕ) (s : Scheduler) → Kept s (wake i s) (suc i)
unfolding wake
Kept-wake i s = elim (Bool-cases (due s i)) [
  | inl e ↦
      let s' : Scheduler = record s { tasks = set_state s.tasks i ready } in
      let same = λ (j : ℕ) (le : suc i ≤ j).
        update_ne s.tasks i (λ k. record k { state = ready }) j (omega arith) in
      rw e (record {
        states = λ j le. state-task_queue_add s' i j ∙ ap (λ (k : Task). k.state) (same j le);
        times = λ j le. until-task_queue_add s' i j ∙ ap (λ (k : Task). k.sleep_until) (same j le);
        current = current-task_queue_add s' i;
        ticks = ticks-task_queue_add s' i;
      })
  | inr e ↦
      rw e (record { states = λ j le. refl; times = λ j le. refl; current = refl; ticks = refl })
]

pub Kept-wake_all : (n : ℕ) (s : Scheduler) → Kept s (wake_all n s) n
unfolding wake_all
Kept-wake_all zero s = record {
  states = λ j le. refl;
  times = λ j le. refl;
  current = refl;
  ticks = refl;
}
Kept-wake_all (suc n) s =
    let a = Kept-wake_all n s in
    let b = Kept-wake n (wake_all n s) in
    record {
      states = λ j le. b.states j le ∙ a.states j (omega arith);
      times = λ j le. b.times j le ∙ a.times j (omega arith);
      current = b.current ∙ a.current;
      ticks = b.ticks ∙ a.ticks;
    }

due-wake_all : (n : ℕ) (s : Scheduler) → due (wake_all n s) n ≡ due s n
due-wake_all n s =
    let k = Kept-wake_all n s in
    rw (k.states n (omega arith), k.times n (omega arith), k.ticks) refl

wake-IsSched :
    {s : Scheduler} {xs : List ℕ} (i : ℕ)
    → IsSched s xs
    → IsSched (wake i s) (if due s i then xs ++ (i ∷ []) else xs)
unfolding wake
wake-IsSched {s} {xs} i v = elim (Bool-cases (due s i)) [
  | inl e ↦
      let (idle, still) = not_awake (state_of s i) (ground arith) in
      rw e (enqueue-IsSched i (λ k. record k { state = ready }) v idle still (λ k. refl) refl)
  | inr e ↦ rw e v
]

append_if :
    (b : Bool) (xs ys : List ℕ) (i : ℕ)
    → (if b then (xs ++ ys) ++ (i ∷ []) else xs ++ ys) ≡ xs ++ (if b then ys ++ (i ∷ []) else ys)
append_if true xs ys i = append_assoc xs ys (i ∷ [])
append_if false xs ys i = refl

-- The loop of `scheduler_tick` puts exactly the sleeping tasks that are due at the end of the queue,
-- in the order of the table.
pub wake_all-IsSched :
    {s : Scheduler} {xs : List ℕ} (n : ℕ) → IsSched s xs → IsSched (wake_all n s) (xs ++ woken n s)
unfolding wake_all
wake_all-IsSched {s} {xs} zero v = subst (IsSched s) (sym (append-nil xs)) v
wake_all-IsSched {s} {xs} (suc n) v =
    subst (IsSched (wake n (wake_all n s)))
      (ap (λ b. if b then (xs ++ woken n s) ++ (n ∷ []) else xs ++ woken n s) (due-wake_all n s)
        ∙ append_if (due s n) xs (woken n s) n)
      (wake-IsSched n (wake_all-IsSched n v))

pub charge-IsSched : {s : Scheduler} {xs : List ℕ} (c : ℕ) → IsSched s xs → IsSched (charge c s) xs
unfolding charge
charge-IsSched {s} {xs} c v =
    let f : Task → Task = λ k. record k { time_remaining = sub32 k.time_remaining 1 } in
    let states : (i : ℕ) → state_of (charge c s) i ≡ state_of s i =
      λ i. state-update s c f i ∙ if_same i in
    record {
      queue = update-IsQueue c f (λ k. refl) v.queue;
      waiting = λ i. v.waiting i ∙ sym (ap is_ready (states i));
      active = λ i. v.active i ∙ sym (ap is_running (states i));
    }
  where
    if_same : (i : ℕ) → (if i == c then state_of s c else state_of s i) ≡ state_of s i
    if_same i = elim (Bool-cases (i == c)) [
      | inl e ↦ rw e (ap (state_of s) (ground arith))
      | inr e ↦ rw e refl
    ]

-- What the timer interrupt leaves of the scheduler `s` when it has queued `zs`: either the current
-- task keeps the processor, or its slice is over and the first of `zs` takes its place.
pub data Ticked (s s' : Scheduler) : List ℕ → Type 0 where
  stays : {zs : List ℕ} → IsSched s' zs → s'.current ≡ s.current → Ticked s s' zs
  switches :
      {x : ℕ} {zs : List ℕ} (c : ℕ)
      → s.current ≡ some c
      → IsSched s' (zs ++ (c ∷ []))
      → s'.current ≡ some x
      → Ticked s s' (x ∷ zs)

Ticked-from :
    {s s' w : Scheduler} {zs : List ℕ} → s'.current ≡ s.current → Ticked s' w zs → Ticked s w zs
Ticked-from e (stays v h) = stays v (h ∙ e)
Ticked-from e (switches c at v h) = switches c (sym e ∙ at) v h

Ticked-schedule :
    (s : Scheduler) (zs : List ℕ) (c : ℕ)
    → IsSched s zs
    → s.current ≡ some c
    → Ticked s (schedule s) zs
Ticked-schedule s [] c v at =
    let e = schedule-nil v.queue in
    stays (subst (λ w. IsSched w []) (sym e) v) (ap (λ (w : Scheduler). w.current) e)
Ticked-schedule s (x ∷ zs) c v at =
    let (w, now) = schedule_round_robin c v at in switches c at w now

Ticked-charge :
    (p : Option ℕ) {s : Scheduler} {zs : List ℕ}
    → IsSched s zs
    → s.current ≡ p
    → Ticked s (charge_current p s) zs
unfolding charge_current charge
Ticked-charge none {s} {zs} v at = stays v refl
Ticked-charge (some c) {s} {zs} v at =
    let v' = charge-IsSched c v in
    elim (Bool-cases (ltb 100 s.system_ticks)) [
      | inl e ↦ elim (Bool-cases (((charge c s).tasks c).time_remaining == 0)) [
        | inl e' ↦ rw (e, e') (Ticked-from refl (Ticked-schedule (charge c s) zs c v' at))
        | inr e' ↦ rw (e, e') (stays v' refl)
      ]
      | inr e ↦ rw e (stays v refl)
    ]

abbrev pub tick_count : Scheduler → Scheduler
tick_count s = record s { system_ticks = wrap32 (s.system_ticks + 1) }

-- On a valid scheduler the timer interrupt first queues the sleeping tasks that are due, in the
-- order of the table. Then either the current task stays, or the first task of the queue takes its
-- place and it joins the end. The scheduler stays valid.
pub scheduler_tick_contract :
    {s : Scheduler} {xs : List ℕ}
    → IsSched s xs
    → Ticked s (scheduler_tick s) (xs ++ woken max_tasks (tick_count s))
unfolding scheduler_tick after_tick
scheduler_tick_contract {s} {xs} v =
    let s' = tick_count s in
    let w = wake_all-IsSched {s = s'} max_tasks (same-IsSched s.next_task_id s'.system_ticks v) in
    let k = Kept-wake_all max_tasks s' in
    Ticked-from k.current (Ticked-charge (wake_all max_tasks s').current w refl)

-- With an empty queue, a current task and more than 100 ticks counted, the part of `scheduler_tick`
-- behind the wake-ups only takes 1 from the time of the current task, modulo 2 ^ 32: it never gives
-- it a new slice.
pub charge_current_alone :
    {s : Scheduler} (c : ℕ)
    → IsQueue s []
    → s.current ≡ some c
    → 100 < s.system_ticks
    → (after_tick s ≡ charge c s)
      × (((after_tick s).tasks c).time_remaining ≡ sub32 (s.tasks c).time_remaining 1)
unfolding after_tick charge_current charge
charge_current_alone {s} c q at late =
    let f : Task → Task = λ k. record k { time_remaining = sub32 k.time_remaining 1 } in
    let e = schedule-nil {s = charge c s} (update-IsQueue c f (λ k. refl) q) in
    let same : charge_current s.current s ≡ charge c s =
      ap (λ p. charge_current p s) at ∙ branch e in
    (
      same,
      ap (λ (w : Scheduler). (w.tasks c).time_remaining) same
          ∙ ap (λ (k : Task). k.time_remaining) (update_self s.tasks c f),
    )
  where
    branch : schedule (charge c s) ≡ charge c s → charge_current (some c) s ≡ charge c s
    branch e = ground (arith, e)

-- Without a current task the timer interrupt gives none the processor.
pub scheduler_tick-idle :
    {s : Scheduler} {xs : List ℕ}
    → IsSched s xs
    → s.current ≡ none
    → ((ys : List ℕ) × IsSched (scheduler_tick s) ys) × ((scheduler_tick s).current ≡ none)
scheduler_tick-idle {s} {xs} v idle = case (scheduler_tick_contract v)
  where
    case :
        {s' : Scheduler} {zs : List ℕ}
        → Ticked s s' zs
        → ((ys : List ℕ) × IsSched s' ys) × (s'.current ≡ none)
    case {zs = zs} (stays w h) = ((zs, w), h ∙ idle)
    case (switches c at w h) = cc (sym idle ∙ at)
