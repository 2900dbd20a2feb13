-- ===== src/Rofs/ReadData.antt =====
-- `read_data` of student-distrib/rofs.c against the contents of the file.
use apoll_os.Prelude.{
  ℕ, zero, suc, ◌+◌, ◌-◌, ◌*◌, ◌/◌, ◌%◌, ◌^◌, ◌≤◌, ◌<◌, min, ◌≡◌, refl, inl, inr, arith, false,
  none, some, List, [], ◌∷◌, ◌++◌, ltb, leb, if◌then◌else◌, Bool-cases, lt→ltb, length, get_elem?,
  take, drop, set-append, take-drop-cons, length-append, get_elem?-out, store, >>=-none, u32, sub32,
  minus_one,
}
use mathlib.Core.List.{append_assoc}
use apoll_os.Rofs.{Fs, Inode, read_loop, read_data}
use apoll_os.Rofs.Contents.{contents, IsFile, contents-Stored}

-- Bytes `p` to `p + n` of the file.
abbrev pub slice : Fs → Inode → ℕ → ℕ → List ℕ
slice fs node p n = take n (drop p (contents fs node))

le→leb : (i n : ℕ) → i < n → leb n i ≡ false
le→leb i n h = ground arith

length-snoc : (xs : List ℕ) (x : ℕ) → length (xs ++ (x ∷ [])) ≡ length xs + 1
length-snoc xs x = omega (arith, length-append xs (x ∷ []))

store-append :
    (front : List ℕ) (d : ℕ) (rest : List ℕ) (v : ℕ)
    → store (front ++ (d ∷ rest)) (length front) v ≡ some ((front ++ (v ∷ [])) ++ rest)
store-append front d rest v = rw (
  lt→ltb (length front) (length (front ++ (d ∷ rest)))
      (omega (arith, length-append front (d ∷ rest))),
  set-append front d rest v,
)

read_loop_lem :
    (fs : Fs) (node : Inode) (offset : ℕ)
    → IsFile fs node
    → (k : ℕ) (front rest : List ℕ) → length front + offset + k ≤ node.length
    → node.length < 2 ^ 32
    → k ≤ length rest
    → read_loop fs node offset k (length front) (front ++ rest)
      ≡ some (front ++ (slice fs node (length front + offset) k ++ drop k rest))
unfolding read_loop
read_loop_lem fs node offset f zero front rest h w r = refl
read_loop_lem fs node offset f (suc k) front [] h w r = absurd (omega arith)
read_loop_lem fs node offset f (suc k) front (d ∷ rest) h w r =
    let p : ℕ = length front + offset in
    let st = contents-Stored fs node p f (omega arith) in
    let c : ℕ = st.byte in
    let wrap : (length front + offset) % 2 ^ 32 ≡ p = omega arith in
    let ih =
      read_loop_lem fs node offset f k (front ++ (c ∷ [])) rest (omega (arith, length-snoc front c))
        w (omega arith) in
    let next : length (front ++ (c ∷ [])) + offset ≡ suc p = omega (arith, length-snoc front c) in
    rw (
      wrap,
      st.num_at,
      st.block_at,
      st.byte_at,
      store-append front d rest c,
      take-drop-cons (contents fs node) p k c st.in_contents,
      ← length-snoc front c,
      ih,
      next,
      append_assoc front (c ∷ []),
    )

-- For an inode in range that is a well-formed file of less than 2 ^ 32 bytes, with an offset and a
-- count whose sum is below 2 ^ 32 and a buffer that has room for what is returned, `read_data`
-- stays inside its arrays; it returns -1 for an offset past the end of the file, and otherwise the
-- bytes of the file from the offset on, as many as were asked for or as are left, and leaves the
-- rest of the buffer alone.
pub read_data_lem :
    (fs : Fs) (inode : ℕ) (node : Inode) (offset : ℕ) (buf : List ℕ) (count : ℕ)
    → inode < fs.boot_block.num_inodes
    → get_elem? fs.inodes inode ≡ some node
    → IsFile fs node
    → node.length < 2 ^ 32
    → offset + count < 2 ^ 32
    → min count (node.length - offset) ≤ length buf
    → read_data fs inode offset buf count ≡ (
        if ltb node.length offset
        then some (minus_one, buf)
        else some (
          min count (node.length - offset),
          slice fs node offset (min count (node.length - offset))
              ++ drop (min count (node.length - offset)) buf,
        ))
unfolding read_data
read_data_lem fs inode node offset buf count hi at f w small room =
    elim (Bool-cases (ltb node.length offset)) [
      | inl past ↦ rw (le→leb inode fs.boot_block.num_inodes hi, at, past)
      | inr inside ↦
          let k : ℕ = min count (node.length - offset) in
          let len : (if ltb node.length (u32 (offset + count))
                then sub32 node.length offset
                else count)
              ≡ k =
            ground arith in
          let start : length {A = ℕ} [] + offset ≡ offset = omega arith in
          let run = read_loop_lem fs node offset f k [] buf (ground arith) w room in
          rw (le→leb inode fs.boot_block.num_inodes hi, at, inside, len, run, start)
    ]

-- The loop runs off the inode's block list if it is asked for more than the list can hold.
read_loop-fault :
    (fs : Fs) (node : Inode) (offset k i : ℕ) (buf : List ℕ)
    → i + offset ≤ 4096 * length node.data_block_num
    → 4096 * length node.data_block_num < i + offset + k
    → 4096 * length node.data_block_num < 2 ^ 32
    → read_loop fs node offset k i buf ≡ none
unfolding read_loop
read_loop-fault fs node offset zero i buf h l w = absurd (omega arith)
read_loop-fault fs node offset (suc k) i buf h l w =
    elim (Bool-cases (ltb (i + offset) (4096 * length node.data_block_num))) [
      | inl inside ↦ >>=-none (get_elem? node.data_block_num _) _ λ n.
          >>=-none (get_elem? fs.data_blocks n) _ λ bytes. >>=-none (get_elem? bytes _) _ λ c.
            >>=-none (store buf i c) _
              λ b. read_loop-fault fs node offset k (i + 1) b (ground arith) (omega arith) w
      | inr end ↦ rw (get_elem?-out node.data_block_num (u32 (i + offset) / 2 ^ 12) (ground arith))
    ]

-- For an inode in range whose length fits its at most 1023 block numbers, and an offset inside the
-- file, a count for which the sum wraps at 2 ^ 32 to a value inside the file is not truncated, and
-- `read_data` runs out of an array.
pub read_data-wrap :
    (fs : Fs) (inode : ℕ) (node : Inode) (offset : ℕ) (buf : List ℕ) (count : ℕ)
    → inode < fs.boot_block.num_inodes
    → get_elem? fs.inodes inode ≡ some node
    → length node.data_block_num ≤ 1023
    → node.length ≤ 4096 * length node.data_block_num
    → offset ≤ node.length
    → count < 2 ^ 32
    → 2 ^ 32 ≤ offset + count
    → offset + count ≤ 2 ^ 32 + node.length
    → read_data fs inode offset buf count ≡ none
unfolding read_data
read_data-wrap fs inode node offset buf count hi at l s ho hc wl wh =
    let past : ltb node.length offset ≡ false = ground arith in
    let len : (if ltb node.length (u32 (offset + count)) then sub32 node.length offset else count)
        ≡ count =
      ground arith in
    rw (
      le→leb inode fs.boot_block.num_inodes hi,
      at,
      past,
      len,
      read_loop-fault fs node offset count 0 buf (omega arith) (omega arith) (omega arith),
    )
