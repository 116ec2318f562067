-- ===== src/Shell/Typing.antt =====
-- The line editor as a whole: what any sequence of keys leaves in the buffer.
use minicore_os.Base.{
  ℕ, ◌≡◌, ◌⊎◌, refl, true, List, [], ◌∷◌, ◌++◌, ltb, if◌then◌else◌, inl, inr, ap, ◌∙◌, sym, subst,
  length,
}
use minicore_os.Terminal.{Terminal}
use minicore_os.Shell.{Shell, shell_buffer_size, shell_backspace, type_char, shell_clear_buffer}
use minicore_os.Shell.Edit.{
  IsLine, printable, type_char-IsLine, shell_backspace-IsLine, shell_backspace-nil,
  shell_clear_buffer-IsLine,
}

-- An empty line or one with a last character.
pub last_char : (l : List ℕ) → (l ≡ []) ⊎ ((l' : List ℕ) × (c : ℕ) × (l ≡ l' ++ (c ∷ [])))
last_char [] = inl refl
last_char (x ∷ l) = elim (last_char l) [
  | inl e ↦ inr ([], x, ap (λ ys. x ∷ ys) e)
  | inr (l', c, e) ↦ inr (x ∷ l', c, ap (λ ys. x ∷ ys) e)
]

-- A key that edits the line: a printable character, or Backspace.
pub data EditKey : Type 0 where
  typed : (c : ℕ) → printable c ≡ true → EditKey
  erased : EditKey

-- The code: one call for each key.
abbrev pub edit : EditKey → Shell × Terminal → Shell × Terminal
edit (typed c _) (s, t) = type_char c s t
edit erased (s, t) = shell_backspace s t

abbrev pub edits : List EditKey → Shell × Terminal → Shell × Terminal
edits [] st = st
edits (k ∷ ks) st = edits ks (edit k st)

-- A list without its last element.
abbrev pub front : List ℕ → List ℕ
front [] = []
front (x ∷ []) = []
front (x ∷ (y ∷ l)) = x ∷ front (y ∷ l)

-- The line as the user means it: a character joins its end while there is room for 255, and Backspace
-- takes the last one.
abbrev pub edit_line : EditKey → List ℕ → List ℕ
edit_line (typed c _) l = if ltb (length l) 255 then l ++ (c ∷ []) else l
edit_line erased l = front l

abbrev pub edit_lines : List EditKey → List ℕ → List ℕ
edit_lines [] l = l
edit_lines (k ∷ ks) l = edit_lines ks (edit_line k l)

front-snoc : (l : List ℕ) (c : ℕ) → front (l ++ (c ∷ [])) ≡ l
front-snoc [] c = refl
front-snoc (x ∷ []) c = refl
front-snoc (x ∷ (y ∷ l)) c = ap (λ k. x ∷ k) (front-snoc (y ∷ l) c)

edit-IsLine :
    (k : EditKey) {s : Shell} (t : Terminal) {l : List ℕ}
    → IsLine s l
    → IsLine (edit k (s, t)).0 (edit_line k l)
edit-IsLine (typed c p) t v = type_char-IsLine t v c p
edit-IsLine erased {s} t {l} v = elim (last_char l) [
  | inl e ↦
      subst (λ k. IsLine (shell_backspace s t).0 k) (e ∙ ap front (sym e))
        (subst (λ (p : Shell × Terminal). IsLine p.0 l) (sym (shell_backspace-nil t v e)) v)
  | inr (l', c, e) ↦
      subst (IsLine (shell_backspace s t).0) (sym (ap front e ∙ front-snoc l' c))
        (shell_backspace-IsLine t v l' c e)
]

edits-IsLine :
    (ks : List EditKey) {s : Shell} (t : Terminal) {l : List ℕ}
    → IsLine s l
    → IsLine (edits ks (s, t)).0 (edit_lines ks l)
edits-IsLine [] t v = v
edits-IsLine (k ∷ ks) {s} t v =
    let (s', t') = edit k (s, t) in edits-IsLine ks {s = s'} t' (edit-IsLine k t v)

-- Whatever the buffer of 256 bytes held: after `shell_clear_buffer` and any sequence of printable
-- characters and Backspaces the buffer holds the line that the keys spell, 255 characters at most,
-- with zeros behind it up to its end, and `buffer_pos` is the length of the line.
pub edits_refine :
    (ks : List EditKey) (s : Shell) (t : Terminal)
    → length s.input_buffer ≡ shell_buffer_size
    → IsLine (edits ks (shell_clear_buffer s, t)).0 (edit_lines ks [])
edits_refine ks s t size = edits-IsLine ks t (shell_clear_buffer-IsLine s size)
