-- ===== src/Fs/Demo.antt =====
-- `fs_init` and the demo files of fs.c.
use minicore_os.Base.{Option, some, List, [], ◌∷◌, ℕ, if◌then◌else◌, c_string}
use minicore_os.Fs.{Fs, clear, add_text_files}

abbrev welcome : List ℕ
welcome =
    c_string
      "Welcome to MiniCore-OS!\nThis is a simple read-only file system.\nTry 'ls' to list files and 'cat <filename>' to read them.\n\nAvailable commands:\n- help: Show all commands\n- ls: List files\n- cat <file>: Display file contents\n- clear: Clear screen\n- mem: Memory information\n- version: System version\n"

abbrev system : List ℕ
system =
    c_string
      "MiniCore-OS System Information\n=============================\nArchitecture: x86 (32-bit)\nMode: Protected Mode\nMemory Management: Active\nFile System: Read-only in-memory\nMultitasking: Cooperative\nVGA Text Mode: 80x25\nBuild Date: August 2025\n"

abbrev readme : List ℕ
readme =
    c_string
      "MiniCore-OS Phase 5: File System\n=================================\n\nThis file system implementation provides:\n- Read-only access to preloaded files\n- Fixed-size file allocation\n- Directory-like abstraction\n- Shell integration with 'ls' and 'cat'\n\nFiles are stored in memory and preloaded at boot.\nMaximum file size: 4KB\nMaximum files: 16\n"

abbrev hello : List ℕ
hello =
    c_string
      "#include <stdio.h>\n\nint main(void) {\n    printf(\"Hello from MiniCore-OS!\\n\");\n    return 0;\n}\n"

abbrev license : List ℕ
license =
    c_string
      "MiniCore-OS License\n==================\n\nThis is a demonstration operating system.\nCreated for educational purposes.\n\nFeel free to study, modify, and learn from this code.\n"

-- the names and contents that `fs_create_demo_files` adds
abbrev pub demo_files : List (List ℕ × List ℕ)
demo_files =
    (c_string "welcome.txt", welcome)
    ∷ ((c_string "system.txt", system)
        ∷ ((c_string "readme.txt", readme)
            ∷ ((c_string "hello.c", hello) ∷ ((c_string "license.txt", license) ∷ []))))

unfoldable pub fs_create_demo_files : Fs → Option Fs
fs_create_demo_files s = add_text_files demo_files s

-- `none` is a write out of bounds.
unfoldable pub fs_init : Fs → Option Fs
fs_init s = if s.initialized then some s else fs_create_demo_files (clear s)
