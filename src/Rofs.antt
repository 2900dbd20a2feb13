-- ===== src/Rofs.antt =====
-- The read-only file system of student-distrib/rofs.c and rofs.h. A function that returns an
-- int32_t beside a filled buffer returns both; `none` is an access outside an array.
pub mod Contents
pub mod FileRead
pub mod Listing
pub mod Names
pub mod ReadData
use apoll_os.Prelude.{
  ℕ, zero, suc, ◌+◌, ◌*◌, ◌/◌, ◌%◌, ◌^◌, ◌&&◌, ◌||◌, Option, none, some, List, [], ◌∷◌, ◌++◌, ltb,
  leb, ◌!=◌, if◌then◌else◌, length, get_elem?, set, store, ◌>>=◌, u32, sub32, minus_one, neg32, slt,
}
use apoll_os.CString.{strncmp, strncpy, strlen}
use apoll_os.FileOps.{File}

-- `enum file_type`.
abbrev pub type_rtc : ℕ
type_rtc = 0

abbrev pub type_dir : ℕ
type_dir = 1

abbrev pub type_file : ℕ
type_file = 2

abbrev pub file_name_length : ℕ
file_name_length = 32

abbrev pub max_files : ℕ
max_files = 8

pub record Dentry : Type 0 where
  pub file_name : List ℕ
  pub file_type : ℕ
  pub inode_num : ℕ
  pub reserved : List ℕ

pub record BootBlock : Type 0 where
  pub num_dir_entries : ℕ
  pub num_inodes : ℕ
  pub num_data_blocks : ℕ
  pub dentries : List Dentry

pub record Inode : Type 0 where
  pub length : ℕ
  pub data_block_num : List ℕ

-- What `boot_block`, `inodes` and `data_blocks` point to.
pub record Fs : Type 0 where
  pub boot_block : BootBlock
  pub inodes : List Inode
  pub data_blocks : List (List ℕ)

-- The three pointers.
pub record Pointers : Type 0 where
  pub boot_block : ℕ
  pub inodes : ℕ
  pub data_blocks : ℕ

-- `sizeof(boot_block_t)`: three words, 52 reserved bytes and 63 directory entries of 64 bytes.
abbrev pub boot_block_size : ℕ
boot_block_size = 3 * 4 + 52 + 63 * (32 + 4 + 4 + 24)

-- `sizeof(inode_t)`.
abbrev pub inode_size : ℕ
inode_size = 4 + 1023 * 4

-- `num_inodes` is read from the boot block at `base`.
pub init_rofs : ℕ → ℕ → Pointers
init_rofs base num_inodes = record {
  boot_block = base;
  inodes = u32 (base + boot_block_size);
  data_blocks = u32 (base + boot_block_size + num_inodes * inode_size);
}

-- The bytes of a directory entry in memory: its name is followed by the little-endian words.
abbrev pub le32 : ℕ → List ℕ
le32 w = w % 256 ∷ w / 256 % 256 ∷ w / 65536 % 256 ∷ w / 16777216 % 256 ∷ []

abbrev pub dentry_bytes : Dentry → List ℕ
dentry_bytes d = d.file_name ++ (le32 d.file_type ++ (le32 d.inode_num ++ d.reserved))

-- The loop of `read_dentry_by_name` at index `i`, with the rounds that are left. `some (some d)`
-- is a return of 0 with the entry copied, `some none` a return of -1.
unfoldable pub find_loop : List ℕ → List Dentry → ℕ → ℕ → Option (Option Dentry)
find_loop fname dentries zero i = some none
find_loop fname dentries (suc k) i =
    let next = find_loop fname dentries k (i + 1) in
    (do
      d ← get_elem? dentries i
      r ← strncmp fname (dentry_bytes d) file_name_length
      if r != 0 then next else some (some d))

unfoldable pub read_dentry_by_name : Fs → List ℕ → Option (Option Dentry)
unfolding find_loop
read_dentry_by_name fs fname =
    find_loop fname fs.boot_block.dentries fs.boot_block.num_dir_entries 0

pub read_dentry_by_index : Fs → ℕ → Option (Option Dentry)
read_dentry_by_index fs index =
    if leb fs.boot_block.num_dir_entries index
    then some none
    else (do d ← get_elem? fs.boot_block.dentries index; some (some d))

-- The loop of `read_data` at index `i`, with the rounds that are left.
read_loop : Fs → Inode → ℕ → ℕ → ℕ → List ℕ → Option (List ℕ)
read_loop fs node offset zero i buf = some buf
read_loop fs node offset (suc k) i buf = do
  let block = u32 (i + offset) / 2 ^ 12
  let block_offset = u32 (i + offset) % 2 ^ 12
  n ← get_elem? node.data_block_num block
  bytes ← get_elem? fs.data_blocks n
  c ← get_elem? bytes block_offset
  buf' ← store buf i c
  read_loop fs node offset k (i + 1) buf'

-- The int32_t result and the buffer.
unfoldable pub read_data : Fs → ℕ → ℕ → List ℕ → ℕ → Option (ℕ × List ℕ)
unfolding read_loop
read_data fs inode offset buf length =
    if leb fs.boot_block.num_inodes inode then some (minus_one, buf) else (do
      node ← get_elem? fs.inodes inode
      if ltb node.length offset then some (minus_one, buf) else (do
        let length' =
            if ltb node.length (u32 (offset + length)) then sub32 node.length offset else length
        buf' ← read_loop fs node offset length' 0 buf
        some (length', buf')))

-- 0 or -1, by the type of the entry that has the name.
unfoldable pub open_typed : Fs → ℕ → List ℕ → Option ℕ
open_typed fs type filename = do
  found ← read_dentry_by_name fs filename
  elim found [
    | none ↦ some minus_one
    | some d ↦ if d.file_type != type then some minus_one else some 0
  ]

unfoldable pub file_open : Fs → List ℕ → Option ℕ
unfolding open_typed
file_open fs filename = open_typed fs type_file filename

pub dir_open : Fs → List ℕ → Option ℕ
unfolding open_typed
dir_open fs filename = open_typed fs type_dir filename

unfoldable pub file_close : ℕ → ℕ
file_close fd = if neg32 fd || slt max_files fd then minus_one else 0

unfoldable pub dir_close : ℕ → ℕ
dir_close fd = if neg32 fd || slt max_files fd then minus_one else 0

-- What `file_read` shows of a byte: visible ASCII, newline and tab.
abbrev pub visible : ℕ → ℕ
visible c = if (ltb c b' ' || ltb b'~' c) && (c != 10 && c != 9) then b' ' else c

-- The first `k` bytes of the buffer, made visible.
mask_loop : ℕ → List ℕ → Option (List ℕ)
mask_loop zero buf = some buf
mask_loop (suc k) [] = none
mask_loop (suc k) (c ∷ buf) = do rest ← mask_loop k buf; some (visible c ∷ rest)

-- The result, the process's file array and the buffer.
unfoldable pub file_read : Fs → List File → ℕ → List ℕ → ℕ → Option (ℕ × List File × List ℕ)
unfolding mask_loop
file_read fs files fd buf nbytes =
    if neg32 fd || slt max_files fd then some (minus_one, files, buf) else (do
      file ← get_elem? files fd
      (bytes_read, buf') ← read_data fs file.inode file.pos buf nbytes
      if neg32 bytes_read then some (minus_one, files, buf') else (do
        buf'' ← mask_loop bytes_read buf'
        let files' = set files fd (record file { pos = u32 (file.pos + bytes_read) })
        some (bytes_read, files', buf'')))

unfoldable pub dir_read : Fs → List File → ℕ → List ℕ → ℕ → Option (ℕ × List File × List ℕ)
dir_read fs files fd buf nbytes = do
  file ← get_elem? files fd
  if leb fs.boot_block.num_dir_entries file.pos then some (0, files, buf) else (do
    dentry ← get_elem? fs.boot_block.dentries file.pos
    let copy_length = if slt file_name_length nbytes then file_name_length else nbytes
    buf' ← strncpy buf (dentry_bytes dentry) copy_length
    let files' = set files fd (record file { pos = u32 (file.pos + 1) })
    bytes_read ← strlen (dentry_bytes dentry)
    some ((if slt file_name_length bytes_read then file_name_length else bytes_read), files', buf'))
