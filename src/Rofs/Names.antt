-- ===== src/Rofs/Names.antt =====
-- Directory lookups of student-distrib/rofs.c: which entry a name finds.
use apoll_os.Prelude.{
  ℕ, zero, suc, ◌+◌, ◌≤◌, ◌<◌, ◌≡◌, refl, sym, ap, ◌∙◌, ◌≢◌, ◌↔◌, inl, inr, arith, Option, none,
  some, List, ◌==◌, ◌!=◌, Bool-cases, length, get_elem?, All, All-get_elem?, length-append,
  get_elem?-in,
}
use mathlib.Core.Path.{subst}
use apoll_os.CString.{strncmp}
use apoll_os.CString.Compare.{text, Readable, IsBytes, Readable-of_length, strncmp_lem}
use apoll_os.Rofs.{Fs, Dentry, dentry_bytes, find_loop, read_dentry_by_name}

-- An entry holds 32 bytes of name, and memory holds bytes.
abbrev pub IsDentry : Dentry → Type 0
IsDentry d = (32 ≤ length d.file_name) × IsBytes (dentry_bytes d)

abbrev pub name_of : Dentry → List ℕ
name_of d = text 32 (dentry_bytes d)

-- No entry from `i` up to `n` has the name.
abbrev pub Absent : List ℕ → List Dentry → ℕ → ℕ → Type 0
Absent fname ds i n =
    (j : ℕ) (d : Dentry) → i ≤ j → j < n → get_elem? ds j ≡ some d → name_of d ≢ text 32 fname

-- What a lookup from index `i` up to `n` returns: the first entry with the name, if there is one.
pub data FirstMatch (fname : List ℕ) (ds : List Dentry) (i n : ℕ) : Option Dentry → Type 0 where
  found :
      (j : ℕ) (d : Dentry)
      → (i ≤ j) × (j < n)
      → get_elem? ds j ≡ some d
      → name_of d ≡ text 32 fname
      → Absent fname ds i j
      → FirstMatch fname ds i n (some d)
  missing : Absent fname ds i n → FirstMatch fname ds i n none

Absent-step :
    (fname : List ℕ) (ds : List Dentry) (i n : ℕ) (d : Dentry)
    → get_elem? ds i ≡ some d
    → name_of d ≢ text 32 fname
    → Absent fname ds (i + 1) n
    → Absent fname ds i n
Absent-step fname ds i n d at ne rest j d' lo hi at' = elim (Bool-cases (j == i)) [
  | inl e ↦
      let same : i ≡ j = ground arith in
      let same_entry : d ≡ d' = cc in λ q. ne (ap name_of same_entry ∙ q)
  | inr e ↦ rest j d' (ground arith) hi at'
]

FirstMatch-step :
    (fname : List ℕ) (ds : List Dentry) (i n : ℕ) (d : Dentry) {o : Option Dentry}
    → get_elem? ds i ≡ some d
    → name_of d ≢ text 32 fname
    → FirstMatch fname ds (i + 1) n o
    → FirstMatch fname ds i n o
FirstMatch-step fname ds i n d at ne (found j d' (lo, hi) at' eq before) =
    found j d' (omega arith, hi) at' eq (Absent-step fname ds i j d at ne before)
FirstMatch-step fname ds i n d at ne (missing rest) =
    missing (Absent-step fname ds i n d at ne rest)

module _ (fname : List ℕ) (readable : Readable 32 fname) (bytes : IsBytes fname) where
  compare_entry :
      (d : Dentry)
      → IsDentry d
      → (r : ℕ) × (strncmp fname (dentry_bytes d) 32 ≡ some r)
        × ((r ≡ 0) ↔ (text 32 fname ≡ name_of d))
  compare_entry d (len, b) =
      strncmp_lem 32 fname (dentry_bytes d) readable
        (Readable-of_length 32 (dentry_bytes d) (omega (arith, length-append d.file_name _))) bytes
        b

  find_loop-FirstMatch :
      (ds : List Dentry) (k i : ℕ)
      → i + k ≤ length ds
      → All IsDentry ds
      → (o : Option Dentry) × (find_loop fname ds k i ≡ some o) × FirstMatch fname ds i (i + k) o
  unfolding find_loop
  find_loop-FirstMatch ds zero i h v = (none, refl, missing (λ j d lo hi at. absurd (omega arith)))
  find_loop-FirstMatch ds (suc k) i h v =
      let (d, at) = get_elem?-in ds i (omega arith) in
      let (r, cmp, (to, from)) = compare_entry d (All-get_elem? IsDentry ds i d v at) in
      let (o, run, first) = find_loop-FirstMatch ds k (i + 1) (omega arith) v in
      let e : i + 1 + k ≡ i + suc k = omega arith in
      elim (Bool-cases (r != 0)) [
        | inl differs ↦ (
          o,
          rw (at, cmp, differs) run,
          FirstMatch-step fname ds i (i + suc k) d at (λ q. absurd (ground (arith, from (sym q))))
              (subst (λ n. FirstMatch fname ds (i + 1) n o) e first),
        )
        | inr same ↦ (
          some d,
          rw (at, cmp, same),
          found i d (omega arith, omega arith) at (sym (to (ground arith)))
              (λ j d' lo hi at'. absurd (omega arith)),
        )
      ]

-- For a name of bytes that can be read for 32 bytes or to its NUL and a directory whose entries
-- are there and are bytes with 32 of name, a lookup by name reads nothing out of range and returns
-- the first entry whose name is the same text, up to 32 characters; it fails exactly if there is
-- none.
pub read_dentry_by_name_lem :
    (fs : Fs) (fname : List ℕ)
    → Readable 32 fname
    → IsBytes fname
    → fs.boot_block.num_dir_entries ≤ length fs.boot_block.dentries
    → All IsDentry fs.boot_block.dentries
    → (o : Option Dentry) × (read_dentry_by_name fs fname ≡ some o)
      × FirstMatch fname fs.boot_block.dentries 0 fs.boot_block.num_dir_entries o
unfolding read_dentry_by_name
read_dentry_by_name_lem fs fname readable bytes n v =
    let num : ℕ = fs.boot_block.num_dir_entries in
    let ds = fs.boot_block.dentries in
    let (o, run, first) = find_loop-FirstMatch fname readable bytes ds num 0 (omega arith) v in
    let e : 0 + num ≡ num = omega arith in (o, run, subst (λ n. FirstMatch fname ds 0 n o) e first)
