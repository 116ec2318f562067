-- ===== src/Shell/Sizes.antt =====
-- The functions of the shell that write to the input buffer keep its size.
use minicore_os.Base.{
  ℕ, zero, suc, ◌+◌, ◌-◌, ◌≡◌, refl, List, ◌==◌, Bool-cases, inl, inr, ◌∙◌, length, length-set,
  get_or,
}
use minicore_os.Shell.{skip_word, drop, next_token, parse_loop, shell_parse_command, skip_blanks}

next_token-length : (input : List ℕ) (end : ℕ) → length (next_token input end).0 ≡ length input
unfolding next_token
next_token-length input end = elim (Bool-cases (get_or input end 0 == 0)) [
  | inl e ↦ rw e refl
  | inr e ↦ rw e (length-set input end 0)
]

parse_loop-length :
    (n : ℕ) (input : List ℕ) (token : ℕ) → length (parse_loop n input token).1 ≡ length input
unfolding parse_loop
parse_loop-length zero input token = refl
parse_loop-length (suc n) input token =
    let end = token + skip_word (drop token input) in
    elim (Bool-cases (get_or input token 0 == 0)) [
      | inl e ↦ rw e refl
      | inr e ↦ rw e (
          parse_loop-length n (next_token input end).0 (next_token input end).1
          ∙ next_token-length input end)
    ]

pub shell_parse_command-length :
    (input : List ℕ) (max_args : ℕ) → length (shell_parse_command input max_args).1 ≡ length input
unfolding shell_parse_command
shell_parse_command-length input max_args =
    parse_loop-length (max_args - 1) input (skip_blanks input)
