-- ===== src/Kernel/Files.antt =====
-- The files of the running kernel: those that `fs_init` has put there, whatever has happened since.
use minicore_os.Base.{ℕ, ◌≡◌, some, List, ◌∷◌, ap, ◌∙◌, sym, subst, Outcome, done}
use minicore_os.Fs.{Fs}
use minicore_os.Fs.Demo.{demo_files, fs_init}
use minicore_os.Fs.View.{IsFs, content_of}
use minicore_os.Fs.Stored.{listed, fs_init-listed}
use minicore_os.Shell.{cmd_cat}
use minicore_os.Kernel.{Kernel, Machine, Flow, next, halted}
use minicore_os.Kernel.Unchanged.{Leaves, going, stopped, faulty, endless}
use minicore_os.Kernel.Commands.{run_command}
use minicore_os.Kernel.Commands.Cat.{cat_output, run_command-cat}
use minicore_os.Kernel.Boot.Ready.{IsLoaded}
use minicore_os.Kernel.Boot.Unchanged.{kernel_main-Leaves}
use minicore_os.Kernel.Keyboard.Unchanged.{keyboard_handler-Leaves}
use minicore_os.Kernel.Interrupt.Unchanged.{irq_handler-Leaves, isr_handler-Leaves}
use minicore_os.Kernel.Events.{Event, poll, request, exception, handle, Reachable, started, after}

abbrev fs_of : Flow → Fs
fs_of (next k) = k.fs
fs_of (halted k) = k.fs

done-injective : {g h : Flow} → done g ≡ done h → g ≡ h
done-injective e = cc e

Leaves-done :
    {P : Fs → Type 0} {o : Outcome Flow} {f : Flow} → Leaves P o → o ≡ done f → P (fs_of f)
Leaves-done {P} (going p) e = subst (λ (g : Flow). P (fs_of g)) (done-injective e) p
Leaves-done {P} (stopped p) e = subst (λ (g : Flow). P (fs_of g)) (done-injective e) p
Leaves-done faulty e = cc e
Leaves-done endless e = cc e

handle-Leaves :
    (P : Fs → Type 0) (hw : Machine) (e : Event) (k : Kernel) → P k.fs → Leaves P (handle hw e k)
unfolding handle
handle-Leaves P hw (poll status scancode) k p = keyboard_handler-Leaves P hw status scancode k p
handle-Leaves P hw (request int_no status scancode) k p =
    irq_handler-Leaves P hw status scancode int_no k p
handle-Leaves P hw (exception int_no status scancode) k p =
    isr_handler-Leaves P hw status scancode int_no k p

reachable-fs_init :
    (hw : Machine) (loaded : Kernel) {f : Flow}
    → Reachable hw loaded f
    → fs_init loaded.fs ≡ some (fs_of f)
reachable-fs_init hw loaded (started f e) = Leaves-done (kernel_main-Leaves hw loaded) e
reachable-fs_init hw loaded (after k e f before can done_) =
    Leaves-done
      (handle-Leaves (λ fs. fs_init loaded.fs ≡ some fs) hw e k
        (reachable-fs_init hw loaded before))
      done_

some-injective : {s t : Fs} → some s ≡ some t → s ≡ t
some-injective e = cc e

-- In every kernel that can be reached the file system holds, under every name, what the demo files
-- have.
pub reachable-listed :
    (hw : Machine) (loaded k : Kernel)
    → IsLoaded loaded
    → Reachable hw loaded (next k)
    → IsFs k.fs × ((a : List ℕ) → content_of k.fs a ≡ listed demo_files a)
reachable-listed hw loaded k start before =
    let (fs, e, v, all) = fs_init-listed loaded.fs start.fs_off start.names in
    subst (λ (s : Fs). IsFs s × ((a : List ℕ) → content_of s a ≡ listed demo_files a))
      (some-injective (sym e ∙ reachable-fs_init hw loaded before)) (v, all)

-- `cat NAME`, in every kernel that can be reached, prints the bytes that the demo files have under the
-- name, all of them and no others, or reports that there is no such file.
pub reachable-cat :
    (hw : Machine) (loaded k : Kernel) (command name : List ℕ) (more : List (List ℕ))
    → IsLoaded loaded
    → Reachable hw loaded (next k)
    → run_command hw cmd_cat (command ∷ name ∷ more) k ≡ cat_output name (listed demo_files name) k
reachable-cat hw loaded k command name more start before =
    let (v, all) = reachable-listed hw loaded k start before in
    run_command-cat hw command name more k v ∙ ap (λ o. cat_output name o k) (all name)
