-- ===== src/Kernel/Unchanged.antt =====
-- Nothing behind `fs_init` writes to the file system.
use minicore_os.Base.{ℕ, List, Outcome, done, fault, out_of_fuel, ◌>>=◌}
use minicore_os.Fs.{Fs}
use minicore_os.Terminal.{Terminal}
use minicore_os.Terminal.Output.{Output}
use minicore_os.Kernel.{Kernel, Flow, next, halted, ◌▸◌, with_terminal, show, alloc, free}

-- Where a step ends, the file system has the property `P`.
pub data Leaves (P : Fs → Type 0) : Outcome Flow → Type 0 where
  going : {k : Kernel} → P k.fs → Leaves P (done (next k))
  stopped : {k : Kernel} → P k.fs → Leaves P (done (halted k))
  faulty : Leaves P fault
  endless : Leaves P out_of_fuel

module _ (P : Fs → Type 0) where
  pub Leaves-bind :
      {o : Outcome Flow} (f : Kernel → Outcome Flow)
      → Leaves P o
      → ((k : Kernel) → P k.fs → Leaves P (f k))
      → Leaves P (o ▸ f)
  Leaves-bind f (going p) later = later _ p
  Leaves-bind f (stopped p) later = stopped p
  Leaves-bind f faulty later = faulty
  Leaves-bind f endless later = endless

  -- A computation of another kind of value, and a step behind it.
  pub Leaves-value :
      {A : Type 0} (o : Outcome A) (f : A → Outcome Flow)
      → ((a : A) → Leaves P (f a))
      → Leaves P (o >>= f)
  Leaves-value (done a) f later = later a
  Leaves-value fault f later = faulty
  Leaves-value out_of_fuel f later = endless

  pub show-Leaves : (os : List Output) (k : Kernel) → P k.fs → Leaves P (show os k)
  unfolding show
  show-Leaves os k p = Leaves-value _ _ (λ t. going p)

  -- What is shown, and a step behind it.
  pub show_then-Leaves :
      (os : List Output) (k : Kernel) (f : Kernel → Outcome Flow)
      → P k.fs
      → ((k : Kernel) → P k.fs → Leaves P (f k))
      → Leaves P (show os k ▸ f)
  show_then-Leaves os k f p later = Leaves-bind f (show-Leaves os k p) later

  pub alloc-Leaves :
      (size : ℕ) (k : Kernel) (f : ℕ → Kernel → Outcome Flow)
      → P k.fs
      → ((a : ℕ) (k : Kernel) → P k.fs → Leaves P (f a k))
      → Leaves P (alloc size k f)
  unfolding alloc
  alloc-Leaves size k f p later = Leaves-value _ _ (λ (a, m). later a (record k { mm = m }) p)

  pub free-Leaves :
      (ptr : ℕ) (k : Kernel) (f : Kernel → Outcome Flow)
      → P k.fs
      → ((k : Kernel) → P k.fs → Leaves P (f k))
      → Leaves P (free ptr k ▸ f)
  unfolding free
  free-Leaves ptr k f p later = Leaves-bind f (Leaves-value _ _ (λ m. going p)) later

  shown-Leaves :
      (o : Outcome Terminal) (k : Kernel) (f : Kernel → Outcome Flow)
      → ((t : Terminal) → Leaves P (f (with_terminal k t)))
      → Leaves P ((o >>= λ t. done (next (with_terminal k t))) ▸ f)
  shown-Leaves (done t) k f later = later t
  shown-Leaves fault k f later = faulty
  shown-Leaves out_of_fuel k f later = endless

  -- What is shown, and a step behind it that has `P` whatever stands on the screen.
  pub show_any-Leaves :
      (os : List Output) (k : Kernel) (f : Kernel → Outcome Flow)
      → ((t : Terminal) → Leaves P (f (with_terminal k t)))
      → Leaves P (show os k ▸ f)
  unfolding show
  show_any-Leaves os k f later = shown-Leaves _ k f later
