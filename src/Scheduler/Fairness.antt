-- ===== src/Scheduler/Fairness.antt =====
-- `task_yield` is fair: a task that waits gets the processor in its turn.
use minicore_os.Base.{ℕ, zero, suc, ◌≡◌, some, List, [], ◌∷◌, ◌++◌, append_assoc, subst, length}
use minicore_os.Scheduler.{Scheduler, task_yield, schedule}
use minicore_os.Scheduler.Invariant.{IsSched, schedule_round_robin}

-- `n` calls of `task_yield`, each by the task that is then the current one
abbrev pub yields : ℕ → Scheduler → Scheduler
yields zero s = s
yields (suc n) s = yields n (task_yield s)

-- On a valid scheduler with the current task `c` and the tasks `xs` in front of the task `x` in the
-- queue, `x` is the current task after as many calls of `task_yield` as there are tasks in `xs`,
-- and one more, and the queue is then the one behind `x`, with `c` and `xs` at its end.
pub yields_fair :
    {s : Scheduler} (c x : ℕ) (xs ys : List ℕ)
    → IsSched s (xs ++ (x ∷ ys))
    → s.current ≡ some c
    → ((yields (suc (length xs)) s).current ≡ some x)
      × IsSched (yields (suc (length xs)) s) (ys ++ (c ∷ xs))
unfolding task_yield
yields_fair c x [] ys v at = let (w, now) = schedule_round_robin c v at in (now, w)
yields_fair {s} c x (z ∷ xs) ys v at =
    let (w, now) = schedule_round_robin c v at in
    let (later, u) =
      yields_fair {s = schedule s} z x xs (ys ++ (c ∷ []))
        (subst (IsSched (schedule s)) (append_assoc xs (x ∷ ys) (c ∷ [])) w) now in
    (
      later,
      subst (IsSched (yields (suc (length xs)) (schedule s))) (append_assoc ys (c ∷ []) (z ∷ xs)) u,
    )
