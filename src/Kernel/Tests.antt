-- ===== src/Kernel/Tests.antt =====
-- The theorems of the kernel, started on a machine whose ports read 0xFF.
use minicore_os.Base.{
  ℕ, ◌+◌, ◌*◌, ◌≡◌, refl, false, none, some, [], ◌∷◌, ◌++◌, ◌<◌, ◌≤◌, ◌⊎◌, replicate, c_string,
  arith, Outcome, done, fault,
}
use minicore_os.Mm.{Mm, block}
use minicore_os.Mm.Paging.{zero_entry}
use minicore_os.Scheduler.{Task, terminated, is_running}
use minicore_os.Scheduler.States.{state_of}
use minicore_os.Fs.{text_file}
use minicore_os.Idt.{no_entry}
use minicore_os.Kernel.{Kernel, Machine, Flow, next, timer, keyboard, ◌▸◌, show}
use minicore_os.Kernel.Boot.{kernel_main}
use minicore_os.Kernel.Boot.Ready.{IsLoaded, kernel_main-IsReady}
use minicore_os.Fs.Demo.{demo_files}
use minicore_os.Fs.Stored.{listed}
use minicore_os.Kernel.Commands.Cat.{cat_output}
use minicore_os.Kernel.Typed.{typed_cat}
use minicore_os.Kernel.Events.{
  poll, polls, Reachable, started, handle, reachable-ReadyFlow, reachable-handle, reachable-idle,
}
use minicore_os.Shell.Edit.{IsLine}
use minicore_os.Kernel.Keyboard.{prompt, clear_line, key_enter}
use minicore_os.Kernel.Keyboard.Keys.{handle_keys, spell, SameRest, Free}
use minicore_os.Kernel.Keyboard.Lines.{Executes, handle_keys-line}
use minicore_os.Kernel.Keyboard.Keeps.{IsReady, ReadyFlow}

abbrev machine : Machine
machine = record {
  stack_of = λ i. 0x110000 + 4096 * i;
  task_idle = 0x101000;
  task_counter = 0x101100;
  task_greeter = 0x101200;
  page_tables = 0x120000;
  idt_table = 0x118000;
  vector = λ i. 0x102000 + i;
  inb = λ ports p. 0xFF;
}

abbrev free_task : Task
free_task = record {
  id = 0;
  name = replicate 32 0;
  state = terminated;
  esp = 0;
  ebp = 0;
  ebx = 0;
  esi = 0;
  edi = 0;
  eflags = 0;
  eip = 0;
  time_slice = 0;
  time_remaining = 0;
  sleep_until = 0;
  next = none;
}

abbrev zero_mm : Mm
zero_mm = record {
  header = λ _. block 0 false 0 0;
  bytes = λ _. 0;
  heap_head = 0;
  heap_start = 0;
  heap_size = 0;
  stats = record {
    total_memory = 0;
    used_memory = 0;
    free_memory = 0;
    num_allocations = 0;
    num_frees = 0;
    largest_free_block = 0;
  };
}

abbrev loaded : Kernel
loaded = record {
  terminal = record { row = 0; column = 0; color = 0; cells = λ i. 0 };
  mm = zero_mm;
  paging = record { directory = λ i. zero_entry; tables = λ t i. zero_entry };
  sched = record {
    tasks = λ i. free_task;
    queue_head = none;
    queue_tail = none;
    current = none;
    next_task_id = 1;
    system_ticks = 0;
  };
  fs = record {
    magic = 0;
    file_count = 0;
    files = λ i. record {
      name = replicate 32 0;
      size = 0;
      type = text_file;
      data_at = none;
      permissions = 0;
    };
    file_data = λ a. 0;
    initialized = false;
  };
  idt = record { entries = λ i. no_entry; limit = 0; base = 0; loaded = (0, 0); ports = [] };
  handlers = λ i. none;
  shell = record {
    input_buffer = replicate 256 0;
    buffer_pos = 0;
    cursor_x = 0;
    cursor_y = 0;
    echo_enabled = false;
    keyboard_state = 0;
  };
  interrupts = false;
}

loaded-IsLoaded : IsLoaded loaded
loaded-IsLoaded = record {
  tasks = λ i le. refl;
  fs_off = refl;
  names = λ i lt. refl;
  buffer = refl;
}

kernel_main-IsReady_example :
    (k' : Kernel) × (kernel_main machine loaded ≡ done (next k'))
    × (IsReady k'
        × ((i : ℕ) → state_of k'.sched i ≡ terminated)
        × (k'.handlers 32 ≡ some timer)
        × (k'.handlers 33 ≡ some keyboard)
        × IsLine k'.shell []
        × (k'.shell.keyboard_state ≡ 0))
kernel_main-IsReady_example = kernel_main-IsReady machine loaded loaded-IsLoaded

-- The kernel at the first key.
abbrev booted : Kernel
booted = (kernel_main-IsReady machine loaded loaded-IsLoaded).0

booted-Reachable : Reachable machine loaded (next booted)
booted-Reachable = started (next booted) (kernel_main-IsReady machine loaded loaded-IsLoaded).1

booted-IsLine : IsLine booted.shell []
booted-IsLine = (kernel_main-IsReady machine loaded loaded-IsLoaded).2.4

booted_free : Free booted
booted_free = (kernel_main-IsReady machine loaded loaded-IsLoaded).2.5

reachable-ReadyFlow_example : ReadyFlow (next booted)
reachable-ReadyFlow_example = reachable-ReadyFlow machine loaded loaded-IsLoaded booted-Reachable

-- The key H is pressed.
reachable-handle_example :
    ((0 < 256)
      × ((f : Flow) × (handle machine (poll 1 0x23) booted ≡ done f) × Reachable machine loaded f))
    ⊎ ((256 ≤ 0) × (handle machine (poll 1 0x23) booted ≡ fault))
reachable-handle_example =
    reachable-handle machine loaded booted (poll 1 0x23) loaded-IsLoaded booted-Reachable
      (polls 1 0x23)

reachable-idle_example :
    (booted.sched.current ≡ none) × (is_running (state_of booted.sched 2) ≡ false)
reachable-idle_example = reachable-idle machine loaded booted 2 loaded-IsLoaded booted-Reachable

-- The line `cat Readme`, typed with the shift key.
loaded-IsLine : IsLine loaded.shell []
loaded-IsLine = record { buffer = refl; at_end = refl; short = omega arith; chars = refl }

handle_keys-line_example :
    (k' : Kernel) × (o : Outcome Flow) × SameRest loaded k'
    × Executes machine (c_string "cat") (c_string "Readme" ∷ []) k' o
    × (handle_keys machine (spell (c_string "cat Readme") ++ key_enter ∷ []) loaded
        ≡ (o ▸ λ k. show prompt (clear_line k)))
handle_keys-line_example =
    handle_keys-line machine loaded (c_string "cat Readme") (c_string "cat")
      (c_string "Readme" ∷ []) loaded-IsLine refl refl (omega arith) refl

-- `cat hello.c` is typed at the first prompt.
typed_cat_example :
    (k' : Kernel) × SameRest booted k'
    × (handle_keys machine (spell (c_string "cat hello.c") ++ key_enter ∷ []) booted ≡ (
        cat_output (c_string "hello.c") (listed demo_files (c_string "hello.c")) k' ▸ λ k.
        show prompt (clear_line k)))
typed_cat_example =
    typed_cat machine loaded booted (c_string "cat hello.c") (c_string "hello.c") [] loaded-IsLoaded
      booted-Reachable booted-IsLine booted_free refl (omega arith) refl
