-- ===== src/Kernel/Boot/Unchanged.antt =====
-- After the start the file system is what `fs_init` has made of it.
use minicore_os.Base.{◌≡◌, refl, Option, none, some}
use minicore_os.Fs.{Fs}
use minicore_os.Fs.Demo.{fs_init}
use minicore_os.Kernel.{Kernel, Machine}
use minicore_os.Kernel.Unchanged.{
  Leaves, going, faulty, show_any-Leaves, Leaves-bind, show-Leaves, show_then-Leaves,
}
use minicore_os.Kernel.Boot.{
  with_fs, shell_init, init_memory, init_interrupts, register_handlers, kernel_main,
}

module _ (hw : Machine) (loaded : Kernel) where
  abbrev Initialized : Fs → Type 0
  Initialized fs = fs_init loaded.fs ≡ some fs

  with_fs-Leaves :
      (o : Option Fs) (k : Kernel) → fs_init loaded.fs ≡ o → Leaves Initialized (with_fs o k)
  unfolding with_fs
  with_fs-Leaves none k e = faulty
  with_fs-Leaves (some fs) k e = going e

  pub kernel_main-Leaves : Leaves Initialized (kernel_main hw loaded)
  unfolding kernel_main shell_init init_memory init_interrupts register_handlers
  kernel_main-Leaves = show_any-Leaves Initialized _ _ _ λ t. show_any-Leaves Initialized _ _ _ λ t.
      show_any-Leaves Initialized _ _ _ λ t. show_any-Leaves Initialized _ _ _ λ t.
        Leaves-bind Initialized _ (with_fs-Leaves (fs_init loaded.fs) _ refl) λ k e.
          show_then-Leaves Initialized _ k _ e λ k e.
            show_then-Leaves Initialized _ _ _ e
              λ k e. show_then-Leaves Initialized _ _ _ e λ k e. show-Leaves Initialized _ k e
