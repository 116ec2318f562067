-- ===== src/Kernel/Commands/Keeps.antt =====
-- The commands of the shell end, and each leaves a valid kernel.
use minicore_os.Base.{
  ℕ, refl, Bool, true, false, Bool-cases, List, [], ◌∷◌, arith, inl, inr, ap, ◌∙◌, sym, subst,
  Outcome, done, ◌>>=◌,
}
use Prim.Native.String.{String}
use minicore_os.Base.{c_string}
use minicore_os.Base.Int.{ℤ}
use minicore_os.Terminal.{Terminal, terminal_clear}
use minicore_os.Terminal.Cursor.{OnScreen, terminal_clear_lem}
use minicore_os.Terminal.Output.{say}
use minicore_os.Mm.{Mm}
use minicore_os.Mm.Report.{mm_print_stats_lem, mm_print_memory_map_lem, mm_debug_heap_lem}
use minicore_os.Scheduler.Lifecycle.{task_create-IsSched, current-task_create}
use minicore_os.Fs.Report.{fs_list-Ends}
use minicore_os.Fs.View.{fs_read-cases}
use minicore_os.Shell.{
  Command, cmd_help, cmd_echo, cmd_mem, cmd_halt, cmd_clear, cmd_memtest, cmd_version, cmd_uptime,
  cmd_tasks, cmd_starttasks, cmd_enableints, cmd_ls, cmd_cat,
}
use minicore_os.Kernel.{Kernel, Machine, next, halted, with_terminal}
use minicore_os.Kernel.Invariant.{
  Valid-mm, IsKernel, Keeps, Keeps-next, Keeps-bind, Valid-terminal, show-Keeps,
}
use minicore_os.Idt.{Idt}
use minicore_os.Kernel.Commands.Memtest.{run_memtest-Keeps}
use minicore_os.Kernel.Commands.{
  run_print_stats, run_memory_map, run_debug_heap, run_mem, equals, create, run_starttasks, enable,
  run_enableints, cat_found, run_cat, run_ls, run_halt, run_command, behind_name, not_found,
}

pub run_print_stats-Keeps : {k : Kernel} → IsKernel k → Keeps (run_print_stats k)
unfolding run_print_stats
run_print_stats-Keeps {k} (bs, v) =
    let (t, e, h, s) = mm_print_stats_lem k.terminal v.heap v.screen in
    (
      _,
      ap
          (λ (r : Outcome (Mm × Terminal)).
            r >>= λ (m, t). done (next (record k { mm = m; terminal = t })))
          e,
      (bs, Valid-terminal (Valid-mm v h) s.cursor),
    )

pub run_memory_map-Keeps : {k : Kernel} → IsKernel k → Keeps (run_memory_map k)
unfolding run_memory_map
run_memory_map-Keeps {k} (bs, v) =
    let (t, e, s) = mm_print_memory_map_lem k.terminal v.screen in
    (
      _,
      ap (λ (r : Outcome Terminal). r >>= λ t. done (next (with_terminal k t))) e,
      (bs, Valid-terminal v s.cursor),
    )

pub run_debug_heap-Keeps : {k : Kernel} → IsKernel k → Keeps (run_debug_heap k)
unfolding run_debug_heap
run_debug_heap-Keeps {k} (bs, v) =
    let (t, e, s) = mm_debug_heap_lem k.mm k.terminal v.screen in
    (
      _,
      ap (λ (r : Outcome Terminal). r >>= λ t. done (next (with_terminal k t))) e,
      (bs, Valid-terminal v s.cursor),
    )

run_mem-Keeps : (as' : List (List ℕ)) {k : Kernel} → IsKernel k → Keeps (run_mem as' k)
unfolding run_mem
run_mem-Keeps [] v = run_print_stats-Keeps v
run_mem-Keeps (a ∷ more) v = elim (Bool-cases (equals a "stats")) [
  | inl e ↦ rw e (run_print_stats-Keeps v)
  | inr e ↦ elim (Bool-cases (equals a "map")) [
    | inl e' ↦ rw (e, e') (run_memory_map-Keeps v)
    | inr e' ↦ elim (Bool-cases (equals a "debug")) [
      | inl e'' ↦ rw (e, e', e'') (run_debug_heap-Keeps v)
      | inr e'' ↦ rw (e, e', e'') (show-Keeps (say "Usage: mem [stats|map|debug]\n" ∷ []) v)
    ]
  ]
]

run_ls-Keeps : {k : Kernel} → IsKernel k → Keeps (run_ls k)
unfolding run_ls
run_ls-Keeps {k} (bs, v) =
    let (r, e, s) = fs_list-Ends k.fs k.terminal v.screen in
    (
      _,
      ap (λ (o : Outcome (ℤ × Terminal)). o >>= λ (r, t). done (next (with_terminal k t))) e,
      (bs, Valid-terminal v s.cursor),
    )

run_cat-Keeps : (as' : List (List ℕ)) {k : Kernel} → IsKernel k → Keeps (run_cat as' k)
unfolding run_cat cat_found
run_cat-Keeps [] v = show-Keeps _ v
run_cat-Keeps (name ∷ more) {k} (bs, v) = elim (fs_read-cases v.fs name) [
  | inl e ↦ subst (λ r. Keeps (cat_found name r k)) (sym e) (show-Keeps (not_found name) (bs, v))
  | inr (at, size, e) ↦ subst (λ r. Keeps (cat_found name r k)) (sym e) (show-Keeps _ (bs, v))
]

create-IsKernel :
    (hw : Machine) (name : String) (entry : ℕ) {k : Kernel}
    → IsKernel k
    → IsKernel (create hw name entry k)
unfolding create
create-IsKernel hw name entry {k} (bs, v) =
    let (ys, w) = task_create-IsSched hw.stack_of (c_string name) entry k.sched v.queue v.sched in
    (
      bs,
      record {
        heap = v.heap;
        queue = ys;
        sched = w;
        idle = current-task_create hw.stack_of (c_string name) entry k.sched ∙ v.idle;
        fs = v.fs;
        screen = v.screen;
        buffer = v.buffer;
      },
    )

run_starttasks-Keeps : (hw : Machine) {k : Kernel} → IsKernel k → Keeps (run_starttasks hw k)
unfolding run_starttasks
run_starttasks-Keeps hw v = Keeps-bind _ (show-Keeps _ v) λ k1 v1.
    Keeps-bind _ (show-Keeps _ (create-IsKernel hw "idle" hw.task_idle v1)) λ k2 v2.
      Keeps-bind _ (show-Keeps _ (create-IsKernel hw "counter" hw.task_counter v2))
        λ k3 v3. show-Keeps _ (create-IsKernel hw "greeter" hw.task_greeter v3)

-- The ports and the interrupt flag are not part of what is valid.
ports-IsKernel :
    (idt : Idt) (on : Bool) {k : Kernel}
    → IsKernel k
    → IsKernel (record k { idt = idt; interrupts = on })
ports-IsKernel idt on (bs, v) = (
  bs,
  record {
    heap = v.heap;
    queue = v.queue;
    sched = v.sched;
    idle = v.idle;
    fs = v.fs;
    screen = v.screen;
    buffer = v.buffer;
  },
)

run_enableints-Keeps : (hw : Machine) {k : Kernel} → IsKernel k → Keeps (run_enableints hw k)
unfolding run_enableints enable
run_enableints-Keeps hw v = Keeps-bind _ (show-Keeps _ v) λ k1 v1.
    Keeps-bind _ (show-Keeps _ (ports-IsKernel _ k1.interrupts v1)) λ k2 v2.
      Keeps-bind _ (show-Keeps _ (ports-IsKernel _ k2.interrupts v2))
        λ k3 v3. show-Keeps _ (ports-IsKernel k3.idt true v3)

run_halt-Keeps : {k : Kernel} → IsKernel k → Keeps (run_halt k)
unfolding run_halt
run_halt-Keeps v =
    Keeps-bind _ (show-Keeps _ v)
      λ k1 v1. (halted (record k1 { interrupts = false }), refl, ports-IsKernel k1.idt false v1)

terminal_clear-OnScreen : (t : Terminal) → OnScreen (terminal_clear t)
terminal_clear-OnScreen t = let (_, _, on, _) = terminal_clear_lem t 0 (omega arith) in on

-- Every command of the shell, with any arguments, ends in a valid kernel, without a fault and
-- whatever the heap, the tasks and the files are; `halt` ends in the loop that waits for ever.
pub run_command-Keeps :
    (hw : Machine) (c : Command) (argv : List (List ℕ)) {k : Kernel}
    → IsKernel k
    → Keeps (run_command hw c argv k)
unfolding run_command
run_command-Keeps hw cmd_help argv v = show-Keeps _ v
run_command-Keeps hw cmd_echo argv v = show-Keeps _ v
run_command-Keeps hw cmd_mem argv v = run_mem-Keeps (behind_name argv) v
run_command-Keeps hw cmd_halt argv v = run_halt-Keeps v
run_command-Keeps hw cmd_clear argv (bs, v) =
    Keeps-next (bs, Valid-terminal v (terminal_clear-OnScreen _))
run_command-Keeps hw cmd_memtest argv v = run_memtest-Keeps v
run_command-Keeps hw cmd_version argv v = show-Keeps _ v
run_command-Keeps hw cmd_uptime argv v = show-Keeps _ v
run_command-Keeps hw cmd_tasks argv v = show-Keeps _ v
run_command-Keeps hw cmd_starttasks argv v = run_starttasks-Keeps hw v
run_command-Keeps hw cmd_enableints argv v = run_enableints-Keeps hw v
run_command-Keeps hw cmd_ls argv v = run_ls-Keeps v
run_command-Keeps hw cmd_cat argv v = run_cat-Keeps (behind_name argv) v
