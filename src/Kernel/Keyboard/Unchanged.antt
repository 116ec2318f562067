-- ===== src/Kernel/Keyboard/Unchanged.antt =====
-- No key writes to the file system.
use minicore_os.Base.{ℕ, Bool-cases, inl, inr, ◌==◌, leb, ◌&&◌, Option, none, some, List, [], ◌∷◌}
use Prim.Native.Nat.{bit_and}
use minicore_os.Base.Int.{ℤ, pos, negsuc}
use minicore_os.Fs.{Fs}
use minicore_os.Shell.{ShellCommand, scancode_to_ascii}
use minicore_os.Kernel.{Kernel, Machine}
use minicore_os.Kernel.Unchanged.{Leaves, going, faulty, Leaves-bind, show-Leaves}
use minicore_os.Kernel.Commands.Unchanged.{run_command-Leaves}
use minicore_os.Kernel.Keyboard.{
  prompt, dispatch_entry, dispatch, execute_args, shell_execute_command, clear_line, enter,
  shell_process_input, is_shift, key_enter, key_lctrl, key_backspace, back, type_key, key_down,
  handle_key, keyboard_handler,
}

module _ (P : Fs → Type 0) (hw : Machine) where
  dispatch_entry-Leaves :
      (o : Option ShellCommand) (argv : List (List ℕ)) (k : Kernel)
      → P k.fs
      → Leaves P (dispatch_entry hw o argv k)
  unfolding dispatch_entry
  dispatch_entry-Leaves none argv k p = faulty
  dispatch_entry-Leaves (some c) argv k p = run_command-Leaves P hw c.handler argv k p

  dispatch-Leaves :
      (r : ℤ) (name : List ℕ) (argv : List (List ℕ)) (k : Kernel)
      → P k.fs
      → Leaves P (dispatch hw r name argv k)
  unfolding dispatch
  dispatch-Leaves (pos i) name argv k p = dispatch_entry-Leaves _ argv k p
  dispatch-Leaves (negsuc n) name argv k p = show-Leaves P _ k p

  execute_args-Leaves :
      (argv : List (List ℕ)) (k : Kernel) → P k.fs → Leaves P (execute_args hw argv k)
  unfolding execute_args
  execute_args-Leaves [] k p = going p
  execute_args-Leaves (name ∷ more) k p = dispatch-Leaves _ name (name ∷ more) k p

  shell_execute_command-Leaves : (k : Kernel) → P k.fs → Leaves P (shell_execute_command hw k)
  unfolding shell_execute_command
  shell_execute_command-Leaves k p = elim (Bool-cases (k.shell.buffer_pos == 0)) [
    | inl e ↦ rw e (going p)
    | inr e ↦ rw e (execute_args-Leaves _ _ p)
  ]

  enter-Leaves : (k : Kernel) → P k.fs → Leaves P (enter hw k)
  unfolding enter clear_line
  enter-Leaves k p =
      Leaves-bind P _ (shell_execute_command-Leaves _ p) λ k p. show-Leaves P prompt _ p

  shell_process_input-Leaves : (c : ℕ) (k : Kernel) → P k.fs → Leaves P (shell_process_input hw c k)
  unfolding shell_process_input
  shell_process_input-Leaves c k p = elim (Bool-cases (c == b'\n')) [
    | inl e ↦ rw e (enter-Leaves k p)
    | inr e ↦ elim (Bool-cases (leb 32 c && leb c 126)) [
      | inl e' ↦ rw (e, e') (going p)
      | inr e' ↦ rw (e, e') (going p)
    ]
  ]

  type_key-Leaves : (scancode : ℕ) (k : Kernel) → P k.fs → Leaves P (type_key hw scancode k)
  unfolding type_key
  type_key-Leaves scancode k p =
      let ascii = scancode_to_ascii scancode (bit_and k.shell.keyboard_state 1) in
      elim (Bool-cases (ascii == 0)) [
        | inl e ↦ rw e (going p)
        | inr e ↦ rw e (shell_process_input-Leaves ascii k p)
      ]

  key_down-Leaves : (scancode : ℕ) (k : Kernel) → P k.fs → Leaves P (key_down hw scancode k)
  unfolding key_down back
  key_down-Leaves scancode k p = elim (Bool-cases (is_shift scancode)) [
    | inl e ↦ rw e (going p)
    | inr e ↦ elim (Bool-cases (scancode == key_lctrl)) [
      | inl e' ↦ rw (e, e') (going p)
      | inr e' ↦ elim (Bool-cases (scancode == key_enter)) [
        | inl f ↦ rw (e, e', f) (shell_process_input-Leaves b'\n' k p)
        | inr f ↦ elim (Bool-cases (scancode == key_backspace)) [
          | inl f' ↦ rw (e, e', f, f') (going p)
          | inr f' ↦ rw (e, e', f, f') (type_key-Leaves scancode k p)
        ]
      ]
    ]
  ]

  handle_key-Leaves : (scancode : ℕ) (k : Kernel) → P k.fs → Leaves P (handle_key hw scancode k)
  unfolding handle_key
  handle_key-Leaves scancode k p = elim (Bool-cases (scancode == 0)) [
    | inl e ↦ rw e (going p)
    | inr e ↦ elim (Bool-cases (bit_and scancode 0x80 == 0)) [
      | inl e' ↦ rw (e, e') (key_down-Leaves scancode k p)
      | inr e' ↦ rw (e, e') (going p)
    ]
  ]

  pub keyboard_handler-Leaves :
      (status scancode : ℕ) (k : Kernel) → P k.fs → Leaves P (keyboard_handler hw status scancode k)
  unfolding keyboard_handler
  keyboard_handler-Leaves status scancode k p = handle_key-Leaves _ k p
