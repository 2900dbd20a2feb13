-- ===== src/Rofs/Contents.antt =====
-- The abstract view of student-distrib/rofs.c: a file is one sequence of bytes. Here it is put
-- together from the data blocks that its inode lists, with no arithmetic on offsets.
use apoll_os.Prelude.{
  ℕ, zero, suc, ◌+◌, ◌-◌, ◌/◌, ◌%◌, ◌≤◌, ◌<◌, ◌≡◌, refl, ap, ◌∙◌, inl, inr, arith, some, List, [],
  ◌∷◌, ◌++◌, map, ltb, Bool-cases, length, get_elem?, get_or, take, All, concat, All-get_elem?,
  get_elem?-take, get_elem?-eq-get_or, get_elem?-in, get_elem?-append_left, get_elem?-append_right,
  ◌>>=◌,
}
use apoll_os.Rofs.{Fs, Inode}

abbrev pub block_of : List (List ℕ) → ℕ → List ℕ
block_of data_blocks n = get_or data_blocks n []

-- The blocks that hold the bytes of the file.
abbrev pub used : Inode → List ℕ
used node = take ((node.length + 4095) / 4096) node.data_block_num

-- The bytes of a file.
abbrev pub contents : Fs → Inode → List ℕ
contents fs node = take node.length (concat (map (block_of fs.data_blocks) (used node)))

-- The inode lists enough blocks, they are there, and every block has 4096 bytes.
pub record IsFile (fs : Fs) (node : Inode) : Type 0 where
  pub listed : (node.length + 4095) / 4096 ≤ length node.data_block_num
  pub present : All (λ n. n < length fs.data_blocks) (used node)
  pub whole : All (λ b. length b ≡ 4096) fs.data_blocks

-- The byte at an index of a concatenation of blocks stands in block `p / 4096`.
get_elem?-concat :
    (bs : List (List ℕ)) (p : ℕ)
    → All (λ b. length b ≡ 4096) bs
    → get_elem? (concat bs) p ≡ (get_elem? bs (p / 4096) >>= λ b. get_elem? b (p % 4096))
get_elem?-concat [] p h = refl
get_elem?-concat (b ∷ bs) p h = elim (Bool-cases (ltb p 4096)) [
  | inl here ↦
      let q : p / 4096 ≡ 0 = ground arith in
      let r : p % 4096 ≡ p = ground arith in
      rw (q, r) (get_elem?-append_left b (concat bs) p (ground arith))
  | inr later ↦
      let p' : ℕ = p - 4096 in
      let e : p ≡ length b + p' = ground arith in
      let q : p / 4096 ≡ suc (p' / 4096) = ground arith in
      let r : p % 4096 ≡ p' % 4096 = ground arith in
      rw (q, r)
        (ap (get_elem? (b ++ concat bs)) e
          ∙ get_elem?-append_right b (concat bs) p'
          ∙ get_elem?-concat bs p' h.1)
]

pub All-blocks :
    (data_blocks : List (List ℕ)) (ns : List ℕ)
    → All (λ b. length b ≡ 4096) data_blocks
    → All (λ n. n < length data_blocks) ns
    → All (λ b. length b ≡ 4096) (map (block_of data_blocks) ns)
All-blocks data_blocks [] h p = tt
All-blocks data_blocks (n ∷ ns) h p = (
  All-get_elem? (λ b. length b ≡ 4096) data_blocks n (block_of data_blocks n) h
      (get_elem?-eq-get_or data_blocks n [] p.0),
  All-blocks data_blocks ns h p.1,
)

get_elem?-map :
    (data_blocks : List (List ℕ)) (ns : List ℕ) (i n : ℕ)
    → get_elem? ns i ≡ some n
    → get_elem? (map (block_of data_blocks) ns) i ≡ some (block_of data_blocks n)
get_elem?-map data_blocks [] i n h = absurd (cc)
get_elem?-map data_blocks (m ∷ ns) zero n h = ap (λ k. some (block_of data_blocks k)) (cc)
get_elem?-map data_blocks (m ∷ ns) (suc i) n h = get_elem?-map data_blocks ns i n h

-- Where the byte at index `p` of a file is stored.
pub record Stored (fs : Fs) (node : Inode) (p : ℕ) : Type 0 where
  pub num : ℕ
  pub block : List ℕ
  pub byte : ℕ
  pub num_at : get_elem? node.data_block_num (p / 4096) ≡ some num
  pub block_at : get_elem? fs.data_blocks num ≡ some block
  pub byte_at : get_elem? block (p % 4096) ≡ some byte
  pub in_contents : get_elem? (contents fs node) p ≡ some byte

-- Every byte of a file is stored in the block and at the offset that `read_data` computes.
pub contents-Stored :
    (fs : Fs) (node : Inode) (p : ℕ) → IsFile fs node → p < node.length → Stored fs node p
contents-Stored fs node p f h =
    let q : p / 4096 < (node.length + 4095) / 4096 = omega arith in
    let (n, at) = get_elem?-in node.data_block_num (p / 4096) (omega (arith, f.listed)) in
    let at_used =
      get_elem?-take ((node.length + 4095) / 4096) node.data_block_num (p / 4096) q ∙ at in
    let there =
      All-get_elem? (λ k. k < length fs.data_blocks) (used node) (p / 4096) n f.present at_used in
    let b = block_of fs.data_blocks n in
    let b_at = get_elem?-eq-get_or fs.data_blocks n [] there in
    let full : length b ≡ 4096 =
      All-get_elem? (λ b. length b ≡ 4096) fs.data_blocks n b f.whole b_at in
    let (c, c_at) = get_elem?-in b (p % 4096) (omega arith) in
    record {
      num = n;
      block = b;
      byte = c;
      num_at = at;
      block_at = b_at;
      byte_at = c_at;
      in_contents =
          get_elem?-take node.length (concat (map (block_of fs.data_blocks) (used node))) p h
          ∙ get_elem?-concat (map (block_of fs.data_blocks) (used node)) p
              (All-blocks fs.data_blocks (used node) f.whole f.present)
          ∙ rw (get_elem?-map fs.data_blocks (used node) (p / 4096) n at_used) c_at;
    }
