-- ===== src/Scheduler/Demo.antt =====
-- The demo tasks of scheduler.c, `task_counter` and `task_greeter`: one round of each loop. `task_idle`
-- only halts until the next interrupt.
use minicore_os.Base.{
  ℕ, zero, suc, ◌+◌, ◌*◌, ◌/◌, ◌%◌, ◌^◌, ◌≡◌, ◌<◌, ◌≤◌, refl, List, [], ◌∷◌, ◌==◌, if◌then◌else◌,
  length, get_or, c_string, some, arith, Bool-cases, inl, inr, ap, ◌∙◌, sym, Outcome, done,
  out_of_fuel, ◌>>=◌,
}
use minicore_os.Terminal.{Terminal}
use minicore_os.Terminal.Cursor.{OnScreen}
use minicore_os.Terminal.Number.{read_dec}
use minicore_os.Terminal.Output.{
  Output, writestring, say, color, light_green, light_brown, print, print-Ends,
}
use minicore_os.Scheduler.{Scheduler, task_sleep}
use minicore_os.Scheduler.Invariant.{IsSched}
use minicore_os.Scheduler.Switching.{task_sleep-IsSched}

-- The digits of `num` in `temp`, the last first, put in front of `text` in the order of `num_str`. A
-- positive `int` has at most 10 digits.
num_loop : ℕ → ℕ → List ℕ → Outcome (List ℕ)
num_loop zero num text = if num == 0 then done text else out_of_fuel
num_loop (suc n) num text =
    let rest = num_loop n (num / 10) ((b'0' + num % 10) ∷ text) in
    if num == 0 then done text else rest

num_str : ℕ → Outcome (List ℕ)
num_str num = if num == 0 then done (b'0' ∷ []) else num_loop 10 num []

abbrev counter_lines : List ℕ → List Output
counter_lines text = color light_green ∷ say "[Counter: " ∷ writestring text ∷ say "] " ∷ []

-- One round of the loop of `task_counter`, with the variable `counter`, a positive `int`.
counter_round : ℕ → Terminal → Scheduler → Outcome (ℕ × Terminal × Scheduler)
counter_round counter t s = do
  text ← num_str counter
  t' ← print (counter_lines text) t
  done (counter + 1, t', task_sleep 50 s)

abbrev greetings : List (List ℕ)
greetings =
    c_string "Hello from multitasking!"
    ∷ c_string "Tasks are running!"
    ∷ c_string "Scheduler working!"
    ∷ c_string "Context switching active!"
    ∷ []

abbrev greeting_lines : ℕ → List Output
greeting_lines index =
    color light_brown ∷ say "[" ∷ writestring (get_or greetings index []) ∷ say "] " ∷ []

-- One round of the loop of `task_greeter`. VGA_COLOR_YELLOW is 14.
greeter_round : ℕ → Terminal → Scheduler → Outcome (ℕ × Terminal × Scheduler)
greeter_round index t s = do
  t' ← print (greeting_lines index) t
  done ((index + 1) % 4, t', task_sleep 75 s)

-- 10 to the power n
abbrev power_of_ten : ℕ → ℕ
power_of_ten zero = 1
power_of_ten (suc n) = 10 * power_of_ten n

num_loop_lem :
    (n num : ℕ) (text : List ℕ)
    → num < power_of_ten n
    → (text' : List ℕ) × (num_loop n num text ≡ done text')
      × (read_dec 0 text' ≡ read_dec num text)
      × (length text' ≤ n + length text)
unfolding num_loop
num_loop_lem zero num text lt =
    let none_left : num ≡ 0 = omega arith in
    (text, ground arith, ap (λ v. read_dec v text) (sym none_left), omega arith)
num_loop_lem (suc n) num text lt = elim (Bool-cases (num == 0)) [
  | inl e ↦
      let none_left : num ≡ 0 = ground arith in
      (text, rw e refl, ap (λ v. read_dec v text) (sym none_left), omega arith)
  | inr e ↦
      let (text', made, r, l) =
        num_loop_lem n (num / 10) ((b'0' + num % 10) ∷ text) (omega arith) in
      (text', rw e made, r ∙ ap (λ v. read_dec v text) (omega arith), omega arith)
]

-- The text of a positive `int` spells it, in at most 10 digits: both buffers of 16 bytes have room
-- for it.
num_str_lem :
    (num : ℕ)
    → num < 2 ^ 31
    → (text : List ℕ) × (num_str num ≡ done text) × (read_dec 0 text ≡ num) × (length text ≤ 10)
unfolding num_str
num_str_lem num lt = elim (Bool-cases (num == 0)) [
  | inl e ↦ (b'0' ∷ [], rw e refl, ground arith, omega arith)
  | inr e ↦ let (text, made, r, l) = num_loop_lem 10 num [] (omega arith) in (text, rw e made, r, l)
]

-- On a valid scheduler with another task that waits, a round of the counter ends, and hands the
-- processor on.
counter_round-IsSched :
    (counter c x : ℕ) (xs : List ℕ) {t : Terminal} {s : Scheduler}
    → counter < 2 ^ 31
    → OnScreen t
    → IsSched s (x ∷ xs)
    → s.current ≡ some c
    → (t' : Terminal) × (counter_round counter t s ≡ done (counter + 1, t', task_sleep 50 s))
      × OnScreen t'
      × IsSched (task_sleep 50 s) xs
      × ((task_sleep 50 s).current ≡ some x)
unfolding counter_round
counter_round-IsSched counter c x xs {t} {s} lt on v at =
    let (text, made, _, _) = num_str_lem counter lt in
    let (t', shown, w) = print-Ends (counter_lines text) t on in
    let (sched, now) = task_sleep-IsSched c 50 v at in
    (t', rw (made, shown) refl, w.cursor, sched, now)

-- A round of the greeter ends, leaves the index of one of the four greetings, and hands the
-- processor on.
greeter_round-IsSched :
    (index c x : ℕ) (xs : List ℕ) {t : Terminal} {s : Scheduler}
    → OnScreen t
    → IsSched s (x ∷ xs)
    → s.current ≡ some c
    → (t' : Terminal) × (greeter_round index t s ≡ done ((index + 1) % 4, t', task_sleep 75 s))
      × OnScreen t'
      × ((index + 1) % 4 < length greetings)
      × IsSched (task_sleep 75 s) xs
      × ((task_sleep 75 s).current ≡ some x)
unfolding greeter_round
greeter_round-IsSched index c x xs {t} {s} on v at =
    let (t', shown, w) = print-Ends (greeting_lines index) t on in
    let (sched, now) = task_sleep-IsSched c 75 v at in
    (t', rw shown refl, w.cursor, omega arith, sched, now)
