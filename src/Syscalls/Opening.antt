-- ===== src/Syscalls/Opening.antt =====
-- Which descriptor `open` of student-distrib/syscalls.c takes.
use apoll_os.Prelude.{
  ℕ, zero, suc, ◌+◌, ◌≤◌, ◌<◌, ◌≡◌, refl, sym, ap, ◌∙◌, inl, inr, arith, true, false, some, List,
  ◌==◌, Bool-cases, length, get_elem?, set, get_elem?-in,
}
use mathlib.Core.Path.{subst}
use apoll_os.FileOps.{File}
use apoll_os.Syscalls.{slot_loop, is_open, set_open}

-- Every descriptor from `i` up to `n` is open.
abbrev pub AllOpen : List File → ℕ → ℕ → Type 0
AllOpen files i n =
    (j : ℕ) (f : File) → i ≤ j → j < n → get_elem? files j ≡ some f → is_open f ≡ true

-- What a search from descriptor `i` up to `n` gives: the first one that is free, marked as open, or
-- `n` and the files as they were.
pub data FirstFree (files : List File) (i n : ℕ) : ℕ × List File → Type 0 where
  taken :
      (j : ℕ) (f : File)
      → (i ≤ j) × (j < n)
      → get_elem? files j ≡ some f
      → is_open f ≡ false
      → AllOpen files i j
      → FirstFree files i n (j, set files j (set_open f))
  full : AllOpen files i n → FirstFree files i n (n, files)

AllOpen-cons :
    (files : List File) (i n : ℕ) (f : File)
    → get_elem? files i ≡ some f
    → is_open f ≡ true
    → AllOpen files (i + 1) n
    → AllOpen files i n
AllOpen-cons files i n f at busy rest j g lo hi here = elim (Bool-cases (i == j)) [
  | inl same ↦
      let e : i ≡ j = ground arith in
      let same_file : f ≡ g = cc in ap is_open (sym same_file) ∙ busy
  | inr later ↦ rest j g (ground arith) hi here
]

FirstFree-later :
    (files : List File) (i n : ℕ) (f : File)
    → get_elem? files i ≡ some f
    → is_open f ≡ true
    → (r : ℕ × List File) → FirstFree files (i + 1) n r
    → FirstFree files i n r
FirstFree-later files i n f at busy r (taken j g (lo, hi) here free before) =
    taken j g (omega arith, hi) here free (AllOpen-cons files i j f at busy before)
FirstFree-later files i n f at busy r (full before) = full (AllOpen-cons files i n f at busy before)

slot_loop-FirstFree :
    (cmos : ℕ → ℕ) (n i : ℕ) (files : List File)
    → i + n ≤ length files
    → (r : ℕ × List File) × (slot_loop cmos n i files ≡ some r) × FirstFree files i (i + n) r
unfolding slot_loop
slot_loop-FirstFree cmos zero i files room =
    let e : i + 0 ≡ i = omega arith in
    ((i, files), refl, rw e (full (λ j f lo hi at. absurd (omega arith))))
slot_loop-FirstFree cmos (suc n) i files room =
    let (f, at) = get_elem?-in files i (omega arith) in
    let (r, run, first) = slot_loop-FirstFree cmos n (i + 1) files (omega arith) in
    let bound : i + 1 + n ≡ i + suc n = omega arith in
    elim (Bool-cases (is_open f)) [
      | inl busy ↦ (
        r,
        rw (at, busy) run,
        FirstFree-later files i (i + suc n) f at busy r
            (subst (λ m. FirstFree files (i + 1) m r) bound first),
      )
      | inr free ↦ (
        (i, set files i (set_open f)),
        rw (at, free),
        taken i f (omega arith, omega arith) at free (λ j g lo hi here. absurd (omega arith)),
      )
    ]

-- Over the eight files of a process, the search of `open` stays inside the array; it marks the
-- lowest free descriptor from 2 on as open, and it ends at 8 with the files as they were exactly
-- if none is free.
pub slot_loop_lem :
    (cmos : ℕ → ℕ) (files : List File)
    → length files ≡ 8
    → (r : ℕ × List File) × (slot_loop cmos 6 2 files ≡ some r) × FirstFree files 2 8 r
slot_loop_lem cmos files size = slot_loop-FirstFree cmos 6 2 files (omega arith)
