-- ===== src/Rofs/FileRead.antt =====
-- `file_read` of student-distrib/rofs.c: a window on the visible bytes of the file that moves on.
use apoll_os.Prelude.{
  ℕ, zero, suc, ◌+◌, ◌-◌, ◌*◌, ◌/◌, ◌^◌, ◌≤◌, ◌<◌, min, ◌≡◌, refl, sym, ◌∙◌, arith, false, ◌||◌,
  Option, some, List, [], ◌∷◌, ◌++◌, map, le→ltb, length, get_elem?, set, take, drop, replicate,
  All, concat, drop-append, take-append, take-append-take-drop, drop-drop, length-append,
  length-take, length-drop, length-replicate, length-map, lt_of_get_elem?, get_elem?-set_self,
  ◌>>=◌, u32, neg32, slt,
}
use mathlib.Core.Path.{subst}
use mathlib.Core.List.{map-append}
use apoll_os.FileOps.{File}
use apoll_os.Rofs.{Fs, Inode, file_read, mask_loop, visible}
use apoll_os.Rofs.Contents.{contents, IsFile, All-blocks, used, block_of}
use apoll_os.Rofs.ReadData.{slice, read_data_lem}

mask_loop_lem :
    (k : ℕ) (buf : List ℕ)
    → k ≤ length buf
    → mask_loop k buf ≡ some (map visible (take k buf) ++ drop k buf)
unfolding mask_loop
mask_loop_lem zero buf h = refl
mask_loop_lem (suc k) [] h = absurd (omega arith)
mask_loop_lem (suc k) (c ∷ buf) h = rw (mask_loop_lem k buf (omega arith))

mask_loop-append :
    (front rest : List ℕ) (k : ℕ)
    → k ≡ length front
    → mask_loop k (front ++ rest) ≡ some (map visible front ++ rest)
mask_loop-append front rest k e = rw (
  e,
  mask_loop_lem (length front) (front ++ rest) (omega (arith, length-append front rest)),
  take-append front rest,
  drop-append front rest,
)

-- The process has `file` open as `fd`, on a file of the file system.
pub record IsOpen (fs : Fs) (files : List File) (fd : ℕ) (file : File) (node : Inode) : Type 0 where
  pub small : fd < 8
  pub entry : get_elem? files fd ≡ some file
  pub inode_in : file.inode < fs.boot_block.num_inodes
  pub inode_at : get_elem? fs.inodes file.inode ≡ some node
  pub valid : IsFile fs node
  pub fits : node.length < 2 ^ 31

length-concat :
    (bs : List (List ℕ)) → All (λ b. length b ≡ 4096) bs → length (concat bs) ≡ 4096 * length bs
length-concat [] h = omega arith
length-concat (b ∷ bs) h =
    let (here, rest) = h in omega (arith, length-append b (concat bs), length-concat bs rest)

pub length-contents :
    (fs : Fs) (node : Inode) → IsFile fs node → length (contents fs node) ≡ node.length
length-contents fs node f =
    let count : ℕ = (node.length + 4095) / 4096 in
    let bs = map (block_of fs.data_blocks) (used node) in
    omega (
      arith,
      f.listed,
      length-take node.length (concat bs),
      length-concat bs (All-blocks fs.data_blocks (used node) f.whole f.present),
      length-map (used node) (block_of fs.data_blocks),
      length-take count node.data_block_num,
    )

length-slice :
    (fs : Fs) (node : Inode) (p k : ℕ)
    → IsFile fs node
    → p + k ≤ node.length
    → length (slice fs node p k) ≡ k
length-slice fs node p k f h = omega (
  arith,
  length-take k (drop p (contents fs node)),
  length-drop p (contents fs node),
  length-contents fs node f,
)

-- For a process that has a well-formed file of less than 2 ^ 31 bytes open at a position inside
-- it, with a position and a count whose sum is below 2 ^ 32 and room for what is returned,
-- `file_read` returns how many bytes are left, up to the count, leaves their visible form in the
-- buffer, and moves the position on by as many.
pub file_read_lem :
    {fs : Fs} {files : List File} {fd : ℕ} {file : File} {node : Inode} (buf : List ℕ) (nbytes : ℕ)
    → IsOpen fs files fd file node
    → file.pos ≤ node.length
    → file.pos + nbytes < 2 ^ 32
    → min nbytes (node.length - file.pos) ≤ length buf
    → let k = min nbytes (node.length - file.pos) in
      file_read fs files fd buf nbytes
      ≡ some (
        k,
        set files fd (record file { pos = file.pos + k }),
        map visible (slice fs node file.pos k) ++ drop k buf,
      )
unfolding file_read
file_read_lem {fs} {files} {fd} {file} {node} buf nbytes o inside small room =
    let k : ℕ = min nbytes (node.length - file.pos) in
    let ok : (neg32 fd || slt 8 fd) ≡ false = ground (arith, o.small) in
    let notneg : neg32 k ≡ false = ground (arith, o.fits) in
    let wrap : u32 (file.pos + k) ≡ file.pos + k = omega (arith, o.fits) in
    let data_at =
      read_data_lem fs file.inode node file.pos buf nbytes o.inode_in o.inode_at o.valid
        (omega (arith, o.fits)) small room in
    let len : k ≡ length (slice fs node file.pos k) =
      sym (length-slice fs node file.pos k o.valid (omega arith)) in
    rw (
      ok,
      o.entry,
      data_at,
      le→ltb node.length file.pos inside,
      notneg,
      mask_loop-append (slice fs node file.pos k) (drop k buf) k len,
      wrap,
    )

slice-append :
    (fs : Fs) (node : Inode) (p k m : ℕ)
    → slice fs node p k ++ slice fs node (p + k) m ≡ slice fs node p (k + m)
slice-append fs node p k m =
    rw (← drop-drop k p (contents fs node)) (take-append-take-drop k m (drop p (contents fs node)))

-- Reads of the given sizes, one after the other, each into a fresh buffer: the bytes that they
-- return, in order.
abbrev pub read_all : Fs → List File → ℕ → List ℕ → Option (List ℕ)
read_all fs files fd [] = some []
read_all fs files fd (n ∷ sizes) = do
  (k, files', buf) ← file_read fs files fd (replicate n 0) n
  rest ← read_all fs files' fd sizes
  some (take k buf ++ rest)

abbrev pub sum : List ℕ → ℕ
sum [] = 0
sum (n ∷ ns) = n + sum ns

IsOpen-moved :
    {fs : Fs} {files : List File} {fd : ℕ} {file : File} {node : Inode} (p : ℕ)
    → IsOpen fs files fd file node
    → IsOpen fs (set files fd (record file { pos = p })) fd (record file { pos = p }) node
IsOpen-moved {files} {fd} {file} p o = record {
  small = o.small;
  entry =
      get_elem?-set_self files fd (record file { pos = p }) (lt_of_get_elem? files fd file o.entry);
  inode_in = o.inode_in;
  inode_at = o.inode_at;
  valid = o.valid;
  fits = o.fits;
}

-- For a process that has a well-formed file of less than 2 ^ 31 bytes open at a position inside
-- it, a sequence of calls of `file_read`, of any sizes that add up to less than 2 ^ 31, each into
-- a fresh buffer of its size, succeeds and returns, put together, the visible form of the file's
-- bytes from the position on, with none lost or repeated, until the sizes or the file are used up.
pub read_all_lem :
    {fs : Fs} {fd : ℕ} {node : Inode} (sizes : List ℕ) (files : List File) (file : File)
    → IsOpen fs files fd file node
    → file.pos ≤ node.length
    → sum sizes < 2 ^ 31
    → read_all fs files fd sizes
      ≡ some (map visible (slice fs node file.pos (min (sum sizes) (node.length - file.pos))))
read_all_lem {fs} {fd} {node} [] files file o inside small =
    let e : min 0 (node.length - file.pos) ≡ 0 = omega arith in rw e
read_all_lem {fs} {fd} {node} (n ∷ sizes) files file o inside small =
    let k : ℕ = min n (node.length - file.pos) in
    let m : ℕ = min (sum sizes) (node.length - (file.pos + k)) in
    let all : min (n + sum sizes) (node.length - file.pos) ≡ k + m = omega arith in
    let room : k ≤ length (replicate n 0) = omega (arith, length-replicate {A = ℕ} n 0) in
    let bytes = slice fs node file.pos k in
    let len : k ≡ length (map visible bytes) =
      sym (length-map bytes visible ∙ length-slice fs node file.pos k o.valid (omega arith)) in
    let front : take k (map visible bytes ++ drop k (replicate n 0)) ≡ map visible bytes =
      subst (λ j. take j (map visible bytes ++ drop k (replicate n 0)) ≡ map visible bytes)
        (sym len) (take-append (map visible bytes) (drop k (replicate n 0))) in
    let here = file_read_lem (replicate n 0) n o inside (omega (arith, o.fits)) room in
    let rest =
      read_all_lem sizes (set files fd (record file { pos = file.pos + k }))
        (record file { pos = file.pos + k }) (IsOpen-moved (file.pos + k) o) (omega arith)
        (omega arith) in
    rw (here, rest, front, all, ← map-append, slice-append fs node file.pos k m)
