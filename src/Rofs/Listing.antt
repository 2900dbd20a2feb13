-- ===== src/Rofs/Listing.antt =====
-- `dir_read` of student-distrib/rofs.c: each read returns the name of the next entry.
use apoll_os.Prelude.{
  ℕ, suc, ◌+◌, ◌-◌, ◌/◌, ◌%◌, ◌^◌, ◌≤◌, ◌<◌, min, ◌≡◌, sym, ap, ◌∙◌, arith, false, some, List, [],
  ◌∷◌, ◌++◌, leb, if◌then◌else◌, length, get_elem?, set, drop, replicate, length-append, u32, slt,
}
use mathlib.Core.List.{append_assoc}
use apoll_os.CString.{strlen}
use apoll_os.CString.Compare.{text, Readable, Readable-of_length, strncpy_lem, strlen-text}
use apoll_os.FileOps.{File}
use apoll_os.Rofs.{Fs, Dentry, dentry_bytes, dir_read, le32}
use apoll_os.Rofs.Names.{name_of}

-- An entry as it is stored: 32 bytes of name, a known file type, and 64 bytes in all.
pub record IsStored (d : Dentry) : Type 0 where
  pub name_size : length d.file_name ≡ 32
  pub type_known : d.file_type ≤ 2
  pub rest_size : length d.reserved ≡ 24

module _ (d : Dentry) (v : IsStored d) where
  -- What follows the second byte of the file type, which is NUL.
  abbrev tail_bytes : List ℕ
  tail_bytes = drop 2 (le32 d.file_type) ++ (le32 d.inode_num ++ d.reserved)

  abbrev tail_of_name : List ℕ
  tail_of_name = le32 d.file_type ++ (le32 d.inode_num ++ d.reserved)

  after_name : dentry_bytes d ≡ (d.file_name ++ (d.file_type % 256 ∷ [])) ++ (0 ∷ tail_bytes)
  after_name =
      let high : d.file_type / 256 % 256 ≡ 0 = omega (arith, v.type_known) in
      rw (high, append_assoc d.file_name (d.file_type % 256 ∷ []))

  length-entry : length (dentry_bytes d) ≡ 64
  length-entry = omega (arith, v.name_size, v.rest_size, length-append d.file_name tail_of_name)

  -- The longest name ends within the entry.
  name_count :
      (r : ℕ) × (strlen (dentry_bytes d) ≡ some r) × (min 32 r ≡ length (name_of d)) × (r ≤ 64)
  name_count =
      let front = d.file_name ++ (d.file_type % 256 ∷ []) in
      let len : length (front ++ (0 ∷ tail_bytes)) ≡ 64 =
        ap length (sym after_name) ∙ length-entry in
      let (r, e, count, bound) = strlen-text 32 front tail_bytes (omega arith) in
      (r, rw after_name e, rw after_name count, omega arith)

lt→leb : (i n : ℕ) → i < n → leb n i ≡ false
lt→leb i n h = ground arith

clamp_lem : (n : ℕ) → n < 2 ^ 31 → (if slt 32 n then 32 else n) ≡ min n 32
clamp_lem n h = ground arith

min_comm : (m n : ℕ) → min m n ≡ min n m
min_comm m n = omega arith

-- For an open directory of at most 63 entries whose position is at a stored entry, a count below 2
-- ^ 31 and room for 32 bytes of it, `dir_read` returns the length of the entry's name, fills the
-- buffer with as much of the name as was asked for, padded with NUL, and moves on by one entry.
pub dir_read_lem :
    (fs : Fs) (files : List File) (fd : ℕ) (buf : List ℕ) (nbytes : ℕ) (file : File) (d : Dentry)
    → get_elem? files fd ≡ some file
    → file.pos < fs.boot_block.num_dir_entries
    → fs.boot_block.num_dir_entries ≤ 63
    → get_elem? fs.boot_block.dentries file.pos ≡ some d
    → IsStored d
    → nbytes < 2 ^ 31
    → min nbytes 32 ≤ length buf
    → let k = min nbytes 32 in
      dir_read fs files fd buf nbytes
      ≡ some (
        length (name_of d),
        set files fd (record file { pos = file.pos + 1 }),
        text k (dentry_bytes d)
            ++ (replicate (k - length (text k (dentry_bytes d))) 0 ++ drop k buf),
      )
unfolding dir_read
dir_read_lem fs files fd buf nbytes file d at inside few entry v small room =
    let k : ℕ = min nbytes 32 in
    let (r, count, named, bound) = name_count d v in
    let wrap : u32 (file.pos + 1) ≡ file.pos + 1 = omega arith in
    let can : Readable (suc k) (dentry_bytes d) =
      Readable-of_length (suc k) (dentry_bytes d) (omega (arith, length-entry d v)) in
    rw (
      at,
      lt→leb file.pos fs.boot_block.num_dir_entries inside,
      entry,
      clamp_lem nbytes small,
      strncpy_lem k buf (dentry_bytes d) room can,
      count,
      clamp_lem r (omega arith),
      min_comm r 32,
      named,
      wrap,
    )
