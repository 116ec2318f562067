-- ===== src/Kernel/Boot/Ready.antt =====
-- `kernel_main` reaches the loop of the shell with a kernel that is ready for the first key.
use minicore_os.Base.{
  ℕ, ◌≡◌, ◌<◌, ◌≤◌, refl, true, false, Option, some, List, [], arith, ap, ◌∙◌, length, Outcome,
  done,
}
use minicore_os.Terminal.Cursor.{OnScreen, terminal_clear_lem}
use minicore_os.Terminal.{Terminal, terminal_initialize}
use minicore_os.Terminal.Output.{Output}
use minicore_os.Mm.Ops.Checks.{mm_init-IsHeap}
use minicore_os.Scheduler.{max_tasks, terminated}
use minicore_os.Scheduler.States.{state_of}
use minicore_os.Scheduler.Start.{scheduler_init-IsSched, current-scheduler_init}
use minicore_os.Fs.{Fs, max_files, max_filename}
use minicore_os.Fs.Init.{fs_init-IsFs}
use minicore_os.Isr.{register_interrupt_handler}
use minicore_os.Shell.{shell_buffer_size, Shell, keyboard_init}
use minicore_os.Shell.Edit.{IsLine, IsLine-length, shell_clear_buffer-IsLine}
use minicore_os.Kernel.{timer, keyboard, Kernel, Machine, Flow, next, ◌▸◌, with_terminal, show}
use minicore_os.Kernel.Boot.{
  with_fs, shell_init, reset_shell, init_memory, init_interrupts, register_handlers, kernel_main,
}
use minicore_os.Kernel.Invariant.{show-Shows}
use minicore_os.Kernel.Keyboard.Keeps.{IsReady}

-- The variables as the loader leaves them: the arrays have their declared sizes, and
-- `fs_initialized` is 0. Tasks that the table does not have are taken as terminated.
pub record IsLoaded (k : Kernel) : Type 0 where
  pub tasks : (i : ℕ) → max_tasks ≤ i → state_of k.sched i ≡ terminated
  pub fs_off : k.fs.initialized ≡ false
  pub names : (i : ℕ) → i < max_files → length (k.fs.files i).name ≡ max_filename
  pub buffer : length k.shell.input_buffer ≡ shell_buffer_size

-- A step of the start ends, with a kernel that has the property `P`.
abbrev pub Starts : (Kernel → Type 0) → Outcome Flow → Type 0
Starts P o = (k : Kernel) × (o ≡ done (next k)) × P k

-- What is shown, and then the rest of the start with another screen.
Starts-show :
    {P : Kernel → Type 0} (os : List Output) (k : Kernel) (f : Kernel → Outcome Flow)
    → OnScreen k.terminal
    → ((t : Terminal) → OnScreen t → Starts P (f (with_terminal k t)))
    → Starts P (show os k ▸ f)
Starts-show os k f on rest =
    let (t, e, on') = show-Shows os k on in
    let (k', e', p) = rest t on' in (k', ap (λ r. r ▸ f) e ∙ e', p)

Starts-fs :
    {P : Kernel → Type 0} (o : Option Fs) {fs : Fs} (k : Kernel) (f : Kernel → Outcome Flow)
    → o ≡ some fs
    → Starts P (f (record k { fs = fs }))
    → Starts P (with_fs o k ▸ f)
unfolding with_fs
Starts-fs o k f e (k', e', p) = (k', ap (λ o. with_fs o k ▸ f) e ∙ e', p)

reset_shell-IsLine :
    (t : Terminal) (s : Shell)
    → length s.input_buffer ≡ shell_buffer_size
    → IsLine (reset_shell t s) []
unfolding reset_shell keyboard_init
reset_shell-IsLine t s h =
    let cleared = record s {
      buffer_pos = 0;
      cursor_x = 0;
      cursor_y = t.row;
      echo_enabled = true;
    } in
    let l = shell_clear_buffer-IsLine cleared h in
    record { buffer = l.buffer; at_end = l.at_end; short = l.short; chars = l.chars }

reset_shell_free : (t : Terminal) (s : Shell) → (reset_shell t s).keyboard_state ≡ 0
unfolding reset_shell keyboard_init
reset_shell_free t s = refl

terminal_initialize-OnScreen : (t : Terminal) → OnScreen (terminal_initialize t)
terminal_initialize-OnScreen t = let (_, _, _, on) = terminal_clear_lem t 0 (omega arith) in on

-- From the variables as the loader leaves them, whatever the machine is and the rest of the memory
-- holds, `kernel_main` reaches the loop of the shell without a fault. The kernel is then ready for
-- the first key, with an empty line and no modifier key held, no task has been created, and the
-- interrupts 32 and 33 have the handlers of the timer and the keyboard.
pub kernel_main-IsReady :
    (hw : Machine) (k : Kernel)
    → IsLoaded k
    → (k' : Kernel) × (kernel_main hw k ≡ done (next k'))
      × (IsReady k'
          × ((i : ℕ) → state_of k'.sched i ≡ terminated)
          × (k'.handlers 32 ≡ some timer)
          × (k'.handlers 33 ≡ some keyboard)
          × IsLine k'.shell []
          × (k'.shell.keyboard_state ≡ 0))
unfolding kernel_main shell_init with_fs init_memory init_interrupts register_handlers
    register_interrupt_handler
kernel_main-IsReady hw k start =
    let (fs, made, files, _) = fs_init-IsFs k.fs start.fs_off start.names in
    let (sched, ended) = scheduler_init-IsSched k.sched start.tasks in
    Starts-show _ _ _ (terminal_initialize-OnScreen k.terminal) λ t1 s1.
      Starts-show _ _ _ s1 λ t2 s2. Starts-show _ _ _ s2 λ t3 s3. Starts-show _ _ _ s3 λ t4 s4.
        Starts-fs _ _ _ made (
          Starts-show _ _ _ s4 λ t5 s5. Starts-show _ _ _ s5 λ t6 s6. Starts-show _ _ _ s6 λ t7 s7.
            let (t8, e8, s8) = show-Shows _ _ s7 in
            let line = reset_shell-IsLine t6 k.shell start.buffer in
            (
              _,
              e8,
              (
                (
                  (
                    _,
                    record {
                      heap = mm_init-IsHeap k.mm;
                      queue = [];
                      sched = sched;
                      idle = current-scheduler_init k.sched;
                      fs = files;
                      screen = s8;
                      buffer = IsLine-length line;
                    },
                  ),
                  ([], line),
                ),
                ended,
                refl,
                refl,
                line,
                reset_shell_free t6 k.shell,
              ),
            ))
