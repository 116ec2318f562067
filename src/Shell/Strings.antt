-- ===== src/Shell/Strings.antt =====
-- The string functions of shell.c that nothing calls: `shell_strlen`, `shell_strcpy` and `shell_strchr`.
use minicore_os.Base.{
  ℕ, zero, suc, ◌≡◌, ◌≢◌, ◌<◌, refl, true, false, Option, none, some, List, [], ◌∷◌, ◌==◌,
  if◌then◌else◌, length, get_or, arith, Bool-cases, inl, inr, ap, ==_iff,
}
use minicore_os.Fs.{fs_strcpy}
use minicore_os.Fs.Text.{text}

shell_strlen : List ℕ → ℕ
shell_strlen [] = 0
shell_strlen (c ∷ str) = let rest = shell_strlen str in if c == 0 then 0 else suc rest

-- Into the array `dest`; `none` is a write behind its end.
shell_strcpy : List ℕ → List ℕ → Option (List ℕ)
shell_strcpy [] src = none
shell_strcpy (d ∷ dest) [] = some (0 ∷ dest)
shell_strcpy (d ∷ dest) (c ∷ src) =
    let rest = shell_strcpy dest src in
    if c == 0 then some (0 ∷ dest) else elim rest [ none ↦ none | some r ↦ some (c ∷ r) ]

-- The index of the character that the pointer returned points to; NULL is `none`.
shell_strchr : List ℕ → ℕ → Option ℕ
shell_strchr [] c = none
shell_strchr (b ∷ str) c =
    let rest = shell_strchr str c in
    if b == 0
    then none
    else if b == c
    then some 0
    else elim rest [ none ↦ none | some i ↦ some (suc i) ]

shell_strlen_lem : (s : List ℕ) → shell_strlen s ≡ length (text s)
unfolding shell_strlen
shell_strlen_lem [] = refl
shell_strlen_lem (c ∷ s) = elim (Bool-cases (c == 0)) [
  | inl e ↦ rw e refl
  | inr e ↦ rw e (ap suc (shell_strlen_lem s))
]

-- The copy of the shell is that of the file system.
shell_strcpy-fs_strcpy : (dest src : List ℕ) → shell_strcpy dest src ≡ fs_strcpy dest src
unfolding shell_strcpy fs_strcpy
shell_strcpy-fs_strcpy [] src = refl
shell_strcpy-fs_strcpy (d ∷ dest) [] = refl
shell_strcpy-fs_strcpy (d ∷ dest) (c ∷ src) = rw (shell_strcpy-fs_strcpy dest src) refl

-- The result of a search for `c` in the string `s`: the index of the first one in its text.
data FirstAt (c : ℕ) (s : List ℕ) : Option ℕ → Type 0 where
  first :
      (i : ℕ)
      → i < length (text s)
      → get_or s i 0 ≡ c
      → ((j : ℕ) → j < i → get_or s j 0 ≢ c)
      → FirstAt c s (some i)
  absent : ((j : ℕ) → j < length (text s) → get_or s j 0 ≢ c) → FirstAt c s none

shell_strchr_lem : (s : List ℕ) (c : ℕ) → FirstAt c s (shell_strchr s c)
unfolding shell_strchr
shell_strchr_lem [] c = absent (λ j lt. absurd (omega arith))
shell_strchr_lem (b ∷ s) c = elim (Bool-cases (b == 0)) [
  | inl e ↦ rw e (absent (λ j lt. absurd (ended e lt)))
  | inr e ↦ elim (Bool-cases (b == c)) [
    | inl f ↦ rw (e, f) (first 0 (more e) ((==_iff b c).0 f) (λ j lt. absurd (omega arith)))
    | inr f ↦ rw (e, f) (later e (λ h. differ f h) (shell_strchr_lem s c))
  ]
]
  where
    ended : {j : ℕ} → (b == 0) ≡ true → j < length (text (b ∷ s)) → ⊥
    ended e lt = ground (arith, e)

    more : (b == 0) ≡ false → 0 < length (text (b ∷ s))
    more e = ground (arith, e)

    differ : (b == c) ≡ false → b ≢ c
    differ f h = ground (arith, f, h)

    later :
        {r : Option ℕ}
        → (b == 0) ≡ false
        → b ≢ c
        → FirstAt c s r
        → FirstAt c (b ∷ s) (elim r [ none ↦ none | some i ↦ some (suc i) ])
    later e ne (first i lt at before) = first (suc i) (ground (arith, e)) at (λ j h. earlier j h)
      where
        earlier : (j : ℕ) → j < suc i → get_or (b ∷ s) j 0 ≢ c
        earlier zero h = ne
        earlier (suc j) h = before j (omega arith)
    later e ne (absent others) = absent (λ j h. all j h)
      where
        all : (j : ℕ) → j < length (text (b ∷ s)) → get_or (b ∷ s) j 0 ≢ c
        all zero h = ne
        all (suc j) h = others j (ground (arith, e))
