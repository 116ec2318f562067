-- ===== src/Kernel/Invariant.antt =====
-- The invariant of the kernel: each part is valid.
use minicore_os.Base.{ℕ, ◌≡◌, refl, none, List, ap, ◌∙◌, length, Outcome, done, ◌>>=◌}
use minicore_os.Terminal.{Terminal}
use minicore_os.Terminal.Cursor.{OnScreen}
use minicore_os.Terminal.Output.{Output, print-Ends}
use minicore_os.Mm.{Mm}
use minicore_os.Mm.Layout.{Layout}
use minicore_os.Mm.Heap.{IsHeap}
use minicore_os.Scheduler.Invariant.{IsSched}
use minicore_os.Fs.View.{IsFs}
use minicore_os.Shell.{shell_buffer_size}
use minicore_os.Kernel.{Kernel, Flow, next, halted, ◌▸◌, with_terminal, show}

-- Each part of the kernel is valid: the heap has the layout `bs`, the scheduler is valid, and no
-- task has the processor, the file system is valid, the cursor is on the screen and the line buffer
-- has its size.
pub record Valid (k : Kernel) (bs : Layout) : Type 0 where
  pub heap : IsHeap k.mm bs
  pub queue : List ℕ
  pub sched : IsSched k.sched queue
  pub idle : k.sched.current ≡ none
  pub fs : IsFs k.fs
  pub screen : OnScreen k.terminal
  pub buffer : length k.shell.input_buffer ≡ shell_buffer_size

abbrev pub IsKernel : Kernel → Type 0
IsKernel k = (bs : Layout) × Valid k bs

-- Where a step has come to, the kernel is valid.
abbrev pub ValidFlow : Flow → Type 0
ValidFlow (next k) = IsKernel k
ValidFlow (halted k) = IsKernel k

-- A step ends, without a fault, and leaves a valid kernel.
abbrev pub Keeps : Outcome Flow → Type 0
Keeps o = (f : Flow) × (o ≡ done f) × ValidFlow f

pub Keeps-next : {k : Kernel} → IsKernel k → Keeps (done (next k))
Keeps-next {k} v = (next k, refl, v)

pub Keeps-bind :
    {o : Outcome Flow} (f : Kernel → Outcome Flow)
    → Keeps o
    → ((k : Kernel) → IsKernel k → Keeps (f k))
    → Keeps (o ▸ f)
Keeps-bind f (next k, e, v) later = let (g, e', w) = later k v in (g, ap (λ r. r ▸ f) e ∙ e', w)
Keeps-bind f (halted k, e, v) later = (halted k, ap (λ r. r ▸ f) e, v)

pub Valid-terminal :
    {k : Kernel} {bs : Layout} {t : Terminal}
    → Valid k bs
    → OnScreen t
    → Valid (with_terminal k t) bs
Valid-terminal v on = record {
  heap = v.heap;
  queue = v.queue;
  sched = v.sched;
  idle = v.idle;
  fs = v.fs;
  screen = on;
  buffer = v.buffer;
}

-- Printing ends, with the cursor on the screen.
pub show-Shows :
    (os : List Output) (k : Kernel)
    → OnScreen k.terminal
    → (t : Terminal) × (show os k ≡ done (next (with_terminal k t))) × OnScreen t
unfolding show
show-Shows os k on =
    let (t, e, s) = print-Ends os k.terminal on in
    (t, ap (λ r. r >>= λ t. done (next (with_terminal k t))) e, s.cursor)

-- Printing changes the screen only.
pub show-Valid :
    (os : List Output) {k : Kernel} {bs : Layout}
    → Valid k bs
    → (t : Terminal) × (show os k ≡ done (next (with_terminal k t))) × Valid (with_terminal k t) bs
show-Valid os {k} v = let (t, e, on) = show-Shows os k v.screen in (t, e, Valid-terminal v on)

pub show-Keeps : (os : List Output) {k : Kernel} → IsKernel k → Keeps (show os k)
show-Keeps os {k} (bs, v) =
    let (t, e, w) = show-Valid os v in (next (with_terminal k t), e, (bs, w))

-- A valid kernel with another heap.
pub Valid-mm :
    {k : Kernel} {bs bs' : Layout} {m : Mm}
    → Valid k bs
    → IsHeap m bs'
    → Valid (record k { mm = m }) bs'
Valid-mm v h = record {
  heap = h;
  queue = v.queue;
  sched = v.sched;
  idle = v.idle;
  fs = v.fs;
  screen = v.screen;
  buffer = v.buffer;
}
