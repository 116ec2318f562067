-- ===== src/Scheduler/Times.antt =====
-- The slices of the tasks and what is left of them: which operations change them.
use minicore_os.Base.{
  ℕ, zero, suc, ◌≡◌, refl, Bool, true, false, ◌&&◌, leb, Option, none, some, List, ◌∷◌, arith, ◌==◌,
  ◌∙◌, ap, subst, sym, if◌then◌else◌, Bool-cases, Option-cases, inl, inr,
}
use minicore_os.Scheduler.{
  Task, ready, is_running, is_sleeping, Scheduler, update, set_next, set_state, task_queue_add,
  unlink_head, requeue, switch_to_task, schedule, preempt, dispatch, wake, wake_all,
}
use minicore_os.Scheduler.Queue.{update_self, update_ne}
use minicore_os.Scheduler.States.{state_of, ticks-task_queue_add}
use minicore_os.Scheduler.Invariant.{IsSched, OnlyCurrent-of, schedule_is}

-- `time_slice` and `time_remaining`
abbrev pub slice_of : Scheduler → ℕ → ℕ
slice_of s j = (s.tasks j).time_slice

abbrev pub left_of : Scheduler → ℕ → ℕ
left_of s j = (s.tasks j).time_remaining

-- No task's times have changed.
pub record SameTimes (s s' : Scheduler) : Type 0 where
  pub slices : (j : ℕ) → slice_of s' j ≡ slice_of s j
  pub lefts : (j : ℕ) → left_of s' j ≡ left_of s j

times-set_next :
    (t : ℕ → Task) (i : ℕ) (p : Option ℕ) (j : ℕ)
    → ((set_next t i p j).time_slice ≡ (t j).time_slice)
      × ((set_next t i p j).time_remaining ≡ (t j).time_remaining)
unfolding update
times-set_next t i p j = ground arith

SameTimes-task_queue_add : (s : Scheduler) (i : ℕ) → SameTimes s (task_queue_add s i)
unfolding task_queue_add
SameTimes-task_queue_add s i = elim (Option-cases s.queue_tail) [
  | inl e ↦ rw e (record {
    slices = λ j. (times-set_next s.tasks i none j).0;
    lefts = λ j. (times-set_next s.tasks i none j).1;
  })
  | inr (z, e) ↦ rw e (record {
    slices = λ j.
        (times-set_next (set_next s.tasks i none) z (some i) j).0
        ∙ (times-set_next s.tasks i none j).0;
    lefts = λ j.
        (times-set_next (set_next s.tasks i none) z (some i) j).1
        ∙ (times-set_next s.tasks i none j).1;
  })
]

SameTimes-wake : (i : ℕ) (s : Scheduler) → SameTimes s (wake i s)
unfolding wake update
SameTimes-wake i s =
    let woke : Scheduler = record s { tasks = set_state s.tasks i ready } in
    let added = SameTimes-task_queue_add woke i in
    let slices : (j : ℕ) → slice_of woke j ≡ slice_of s j = λ j. ground arith in
    let lefts : (j : ℕ) → left_of woke j ≡ left_of s j = λ j. ground arith in
    choose (is_sleeping (s.tasks i).state && leb (s.tasks i).sleep_until s.system_ticks)
      (record { slices = λ j. added.slices j ∙ slices j; lefts = λ j. added.lefts j ∙ lefts j })
  where
    choose : (b : Bool) {w : Scheduler} → SameTimes s w → SameTimes s (if b then w else s)
    choose true h = h
    choose false h = record { slices = λ j. refl; lefts = λ j. refl }

pub SameTimes-wake_all : (n : ℕ) (s : Scheduler) → SameTimes s (wake_all n s)
unfolding wake_all
SameTimes-wake_all zero s = record { slices = λ j. refl; lefts = λ j. refl }
SameTimes-wake_all (suc n) s =
    let a = SameTimes-wake_all n s in
    let b = SameTimes-wake n (wake_all n s) in
    record { slices = λ j. b.slices j ∙ a.slices j; lefts = λ j. b.lefts j ∙ a.lefts j }

pub slice-update :
    (t : ℕ → Task) (i : ℕ) (f : Task → Task) (j : ℕ)
    → ((k : Task) → (f k).time_slice ≡ k.time_slice)
    → (update t i f j).time_slice ≡ (t j).time_slice
slice-update t i f j keeps = elim (Bool-cases (j == i)) [
  | inl e ↦
      let same : j ≡ i = ground arith in
      ap (λ k. (update t i f k).time_slice) same
      ∙ ap (λ (k : Task). k.time_slice) (update_self t i f)
      ∙ keeps (t i)
      ∙ ap (λ k. (t k).time_slice) (sym same)
  | inr e ↦ ap (λ (k : Task). k.time_slice) (update_ne t i f j (ground arith))
]

slice-requeue : (p : Option ℕ) (s : Scheduler) (j : ℕ) → slice_of (requeue p s) j ≡ slice_of s j
unfolding requeue
slice-requeue none s j = refl
slice-requeue (some c) s j = elim (Bool-cases (is_running (state_of s c))) [
  | inl e ↦ rw e (
      (SameTimes-task_queue_add (record s { tasks = update s.tasks c preempt }) c).slices j
      ∙ slice-update s.tasks c preempt j (λ k. refl))
  | inr e ↦ rw e refl
]

ticks-requeue : (p : Option ℕ) (s : Scheduler) → (requeue p s).system_ticks ≡ s.system_ticks
unfolding requeue
ticks-requeue none s = refl
ticks-requeue (some c) s = elim (Bool-cases (is_running (state_of s c))) [
  | inl e ↦ rw e (ticks-task_queue_add (record s { tasks = update s.tasks c preempt }) c)
  | inr e ↦ rw e refl
]

-- A scheduler `s'` in which every task has the slice that it has in `s`, and the clock is the same.
pub record SameSlices (s s' : Scheduler) : Type 0 where
  pub slices : (j : ℕ) → slice_of s' j ≡ slice_of s j
  pub ticks : s'.system_ticks ≡ s.system_ticks

-- `schedule` gives the task that it switches to its whole slice.
pub schedule-left :
    {s : Scheduler} {x : ℕ} {zs : List ℕ}
    → IsSched s (x ∷ zs)
    → SameSlices s (schedule s) × (left_of (schedule s) x ≡ slice_of s x)
unfolding switch_to_task unlink_head
schedule-left {s} {x} {zs} v =
    let r : Scheduler = requeue s.current (unlink_head s x) in
    let slices : (j : ℕ) → slice_of r j ≡ slice_of s j =
      λ j. slice-requeue s.current (unlink_head s x) j ∙ (times-set_next s.tasks x none j).0 in
    subst (λ s'. SameSlices s s' × (left_of s' x ≡ slice_of s x))
      (sym (schedule_is v.queue v.waiting (OnlyCurrent-of v)))
      (
        record {
          slices = λ j. slice-update r.tasks x dispatch j (λ k. refl) ∙ slices j;
          ticks = ticks-requeue s.current (unlink_head s x);
        },
        ap (λ (k : Task). k.time_remaining) (update_self r.tasks x dispatch) ∙ slices x,
      )
