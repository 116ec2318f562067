-- ===== src/Fs/Stored.antt =====
-- The files that `add_text_files` adds to a file system: what is then held under each name.
use minicore_os.Base.{
  ℕ, ◌+◌, ◌≡◌, ◌<◌, ◌≤◌, refl, Bool, true, false, Option, none, some, List, [], ◌∷◌, if◌then◌else◌,
  length, arith, ap, ◌∙◌, sym, Option-cases, Bool-cases, inl, inr,
}
use minicore_os.Fs.{
  Fs, text_file, max_files, max_filename, max_filesize, fs_find_file, find_from, fs_strcmp, fs_read,
  read_found, clear, add_text_files,
}
use minicore_os.Fs.Text.{text, same_text, fs_strcmp_zero}
use minicore_os.Fs.View.{IsFs, content_of, content_at, content_of-find, find_ready}
use minicore_os.Fs.Contract.{Added, fs_add_file_contract}
use minicore_os.Fs.Init.{clear-IsFs}
use minicore_os.Fs.Demo.{demo_files, fs_create_demo_files, fs_init}

-- What a list of names and contents has under a name.
abbrev pub listed : List (List ℕ × List ℕ) → List ℕ → Option (List ℕ)
listed [] a = none
listed ((name, content) ∷ fs) a =
    let rest = listed fs a in if same_text name a then some (text content) else rest

-- Names and contents fit, and no name stands in the list again.
abbrev pub Unlike : List ℕ → List (List ℕ × List ℕ) → Type 0
Unlike name [] = Unit {0}
Unlike name ((other, content) ∷ fs) = (same_text name other ≡ false) × Unlike name fs

abbrev pub Fitting : List (List ℕ × List ℕ) → Type 0
Fitting [] = Unit {0}
Fitting ((name, content) ∷ fs) =
    (length (text name) < max_filename)
    × (length (text content) < max_filesize)
    × Unlike name fs
    × Fitting fs

-- The file system holds nothing under the names.
abbrev pub AllNew : Fs → List (List ℕ × List ℕ) → Type 0
AllNew s [] = Unit {0}
AllNew s ((name, content) ∷ fs) = (content_of s name ≡ none) × AllNew s fs

or_else : Option (List ℕ) → Option (List ℕ) → Option (List ℕ)
or_else none o = o
or_else (some c) o = some c

content_of-none :
    {s : Fs} (v : IsFs s) (a : List ℕ) → content_of s a ≡ none → fs_find_file s a ≡ none
unfolding content_at
content_of-none {s} v a e = elim (Option-cases (find_from s.file_count 0 s.files a)) [
  | inl e' ↦ find_ready s a v.ready ∙ e'
  | inr (i, e') ↦ cc (e, content_of-find v a, ap (content_at s) e')
]

AllNew-add :
    {s s' : Fs} {name content : List ℕ} (fs : List (List ℕ × List ℕ))
    → Added s name content s'
    → Unlike name fs
    → AllNew s fs
    → AllNew s' fs
AllNew-add [] a u n = tt
AllNew-add ((other, c) ∷ fs) a (u, us) (n, ns) = (a.contents other ∙ rw u n, AllNew-add fs a us ns)

Unlike-listed :
    (name : List ℕ) (fs : List (List ℕ × List ℕ)) (a : List ℕ)
    → Unlike name fs
    → same_text name a ≡ true
    → listed fs a ≡ none
Unlike-listed name [] a u e = refl
Unlike-listed name ((other, content) ∷ fs) a (u, us) e = elim (Bool-cases (same_text other a)) [
  | inl e' ↦
      let same = (fs_strcmp_zero name a).0 e ∙ sym ((fs_strcmp_zero other a).0 e') in
      absurd (clash (sym u ∙ (fs_strcmp_zero name other).1 same))
  | inr e' ↦ rw e' (Unlike-listed name fs a us e)
]
  where
    clash : false ≡ true → ⊥
    clash e = cc

joined :
    (b : Bool) (o p : Option (List ℕ)) (c : List ℕ)
    → (b ≡ true → o ≡ none)
    → or_else o (if b then some c else p) ≡ or_else (if b then some c else o) p
unfolding or_else
joined true o p c h = rw (h refl) refl
joined false o p c h = refl

add_text_files-listed :
    (fs : List (List ℕ × List ℕ)) (s : Fs)
    → IsFs s
    → s.file_count + length fs ≤ max_files
    → Fitting fs
    → AllNew s fs
    → (s' : Fs) × (add_text_files fs s ≡ some s')
      × IsFs s'
      × ((a : List ℕ) → content_of s' a ≡ or_else (listed fs a) (content_of s a))
unfolding add_text_files or_else
add_text_files-listed [] s v room fit new = (s, refl, v, λ a. refl)
add_text_files-listed ((name, content) ∷ fs) s v room (short, small, unlike, fit) (new, news) =
    let (s1, e1, a1) =
      fs_add_file_contract s name content text_file v (omega arith) short small
        (content_of-none v name new) in
    let (s2, e2, v2, all) =
      add_text_files-listed fs s1 a1.valid (omega (arith, a1.counted)) fit
        (AllNew-add fs a1 unlike news) in
    (
      s2,
      ap (λ o. elim o [ none ↦ none | some q ↦ add_text_files fs q.1 ]) e1 ∙ e2,
      v2,
      λ a.
          all a
          ∙ ap (or_else (listed fs a)) (a1.contents a)
          ∙ joined (same_text name a) (listed fs a) (content_of s a) (text content)
              (Unlike-listed name fs a unlike),
    )

content_of-clear : (s : Fs) (a : List ℕ) → content_of (clear s) a ≡ none
unfolding fs_read read_found fs_find_file find_from clear
content_of-clear s a = refl

few : (s : Fs) → (clear s).file_count + 5 ≤ max_files
unfolding clear
few s = omega arith

demo_files-Fitting : Fitting demo_files
unfolding fs_strcmp
demo_files-Fitting = (
  omega arith,
  omega arith,
  (refl, (refl, (refl, (refl, tt)))),
  (
    omega arith,
    omega arith,
    (refl, (refl, (refl, tt))),
    (
      omega arith,
      omega arith,
      (refl, (refl, tt)),
      (omega arith, omega arith, (refl, tt), (omega arith, omega arith, tt, tt)),
    ),
  ),
)

demo_files-AllNew : (s : Fs) → AllNew (clear s) demo_files
demo_files-AllNew s =
    let none_there = content_of-clear s in
    (none_there _, (none_there _, (none_there _, (none_there _, (none_there _, tt)))))

or_else-none : (o : Option (List ℕ)) → or_else o none ≡ o
unfolding or_else
or_else-none none = refl
or_else-none (some c) = refl

-- After `fs_init` of a file system that was not initialized, in arrays of the declared sizes, there is
-- exactly what the demo files have under every name.
pub fs_init-listed :
    (s : Fs)
    → s.initialized ≡ false
    → ((i : ℕ) → i < max_files → length (s.files i).name ≡ max_filename)
    → (s' : Fs) × (fs_init s ≡ some s')
      × IsFs s'
      × ((a : List ℕ) → content_of s' a ≡ listed demo_files a)
unfolding fs_init fs_create_demo_files
fs_init-listed s off h =
    let room : (clear s).file_count + 5 ≤ max_files = few s in
    let (s', e, v, all) =
      add_text_files-listed demo_files (clear s) (clear-IsFs s h) room demo_files-Fitting
        (demo_files-AllNew s) in
    (
      s',
      ap (λ (b : Bool). if b then some s else add_text_files demo_files (clear s)) off ∙ e,
      v,
      λ a. all a ∙ ap (or_else (listed demo_files a)) (content_of-clear s a) ∙ or_else-none _,
    )
