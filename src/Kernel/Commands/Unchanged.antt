-- ===== src/Kernel/Commands/Unchanged.antt =====
-- No command writes to the file system.
use minicore_os.Base.{ℕ, Bool-cases, inl, inr, none, some, Option, List, [], ◌∷◌}
use minicore_os.Base.Int.{ℤ, pos, negsuc}
use minicore_os.Fs.{Fs}
use minicore_os.Shell.{
  Command, cmd_help, cmd_echo, cmd_mem, cmd_halt, cmd_clear, cmd_memtest, cmd_version, cmd_uptime,
  cmd_tasks, cmd_starttasks, cmd_enableints, cmd_ls, cmd_cat,
}
use minicore_os.Kernel.{Kernel, Machine}
use minicore_os.Kernel.Unchanged.{
  Leaves, going, stopped, faulty, Leaves-value, show-Leaves, show_then-Leaves, alloc-Leaves,
  free-Leaves,
}
use minicore_os.Kernel.Commands.{
  run_print_stats, run_memory_map, run_debug_heap, run_mem, equals, run_memtest, create,
  run_starttasks, enable, run_enableints, cat_found, run_cat, run_ls, run_halt, run_command,
}

module _ (P : Fs → Type 0) where
  run_mem-Leaves : (args : List (List ℕ)) (k : Kernel) → P k.fs → Leaves P (run_mem args k)
  unfolding run_mem run_print_stats run_memory_map run_debug_heap
  run_mem-Leaves [] k p = Leaves-value P _ _ (λ r. going p)
  run_mem-Leaves (a ∷ more) k p = elim (Bool-cases (equals a "stats")) [
    | inl e ↦ rw e (Leaves-value P _ _ (λ r. going p))
    | inr e ↦ elim (Bool-cases (equals a "map")) [
      | inl e' ↦ rw (e, e') (Leaves-value P _ _ (λ t. going p))
      | inr e' ↦ elim (Bool-cases (equals a "debug")) [
        | inl f ↦ rw (e, e', f) (Leaves-value P _ _ (λ t. going p))
        | inr f ↦ rw (e, e', f) (show-Leaves P _ k p)
      ]
    ]
  ]

  run_memtest-Leaves : (k : Kernel) → P k.fs → Leaves P (run_memtest k)
  unfolding run_memtest
  run_memtest-Leaves k p = show_then-Leaves P _ k _ p λ k p. alloc-Leaves P 100 k _ p λ ptr1 k p.
      show_then-Leaves P _ k _ p λ k p. alloc-Leaves P 200 k _ p λ ptr2 k p.
        show_then-Leaves P _ k _ p λ k p. free-Leaves P ptr1 k _ p λ k p.
          show_then-Leaves P _ k _ p λ k p. free-Leaves P ptr2 k _ p λ k p. show-Leaves P _ k p

  run_starttasks-Leaves : (hw : Machine) (k : Kernel) → P k.fs → Leaves P (run_starttasks hw k)
  unfolding run_starttasks create
  run_starttasks-Leaves hw k p =
      show_then-Leaves P _ k _ p λ k p.
        show_then-Leaves P _ _ _ p λ k p. show_then-Leaves P _ _ _ p λ k p. show-Leaves P _ _ p

  run_enableints-Leaves : (hw : Machine) (k : Kernel) → P k.fs → Leaves P (run_enableints hw k)
  unfolding run_enableints enable
  run_enableints-Leaves hw k p =
      show_then-Leaves P _ k _ p λ k p.
        show_then-Leaves P _ _ _ p λ k p. show_then-Leaves P _ _ _ p λ k p. show-Leaves P _ _ p

  cat_found-Leaves :
      (name : List ℕ) (r : ℤ × (Option ℕ × ℕ)) (k : Kernel) → P k.fs → Leaves P (cat_found name r k)
  unfolding cat_found
  cat_found-Leaves name (negsuc n, r) k p = show-Leaves P _ k p
  cat_found-Leaves name (pos n, (none, size)) k p = faulty
  cat_found-Leaves name (pos n, (some a, size)) k p = show-Leaves P _ k p

  run_cat-Leaves : (args : List (List ℕ)) (k : Kernel) → P k.fs → Leaves P (run_cat args k)
  unfolding run_cat
  run_cat-Leaves [] k p = show-Leaves P _ k p
  run_cat-Leaves (name ∷ more) k p = cat_found-Leaves name _ k p

  pub run_command-Leaves :
      (hw : Machine) (c : Command) (argv : List (List ℕ)) (k : Kernel)
      → P k.fs
      → Leaves P (run_command hw c argv k)
  unfolding run_command run_halt run_ls
  run_command-Leaves hw cmd_help argv k p = show-Leaves P _ k p
  run_command-Leaves hw cmd_echo argv k p = show-Leaves P _ k p
  run_command-Leaves hw cmd_mem argv k p = run_mem-Leaves _ k p
  run_command-Leaves hw cmd_halt argv k p = show_then-Leaves P _ k _ p λ k p. stopped p
  run_command-Leaves hw cmd_clear argv k p = going p
  run_command-Leaves hw cmd_memtest argv k p = run_memtest-Leaves k p
  run_command-Leaves hw cmd_version argv k p = show-Leaves P _ k p
  run_command-Leaves hw cmd_uptime argv k p = show-Leaves P _ k p
  run_command-Leaves hw cmd_tasks argv k p = show-Leaves P _ k p
  run_command-Leaves hw cmd_starttasks argv k p = run_starttasks-Leaves hw k p
  run_command-Leaves hw cmd_enableints argv k p = run_enableints-Leaves hw k p
  run_command-Leaves hw cmd_ls argv k p = Leaves-value P _ _ (λ r. going p)
  run_command-Leaves hw cmd_cat argv k p = run_cat-Leaves _ k p
