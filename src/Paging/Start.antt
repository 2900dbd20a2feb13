-- ===== src/Paging/Start.antt =====
-- The address space that `init_paging` of student-distrib/paging.c sets up.
use apoll_os.Prelude.{
  [], ℕ, zero, suc, ◌+◌, ◌*◌, ◌/◌, ◌%◌, ◌^◌, ◌≤◌, ◌<◌, bit_or, ◌≡◌, refl, ap, ◌∙◌, inl, inr, arith,
  true, false, ◌||◌, Option, none, some, List, ◌==◌, if◌then◌else◌, Bool-cases, length, get_elem?,
  set, length-set, get_elem?-set_if, store-set, bit_or-low, u32,
}
use mathlib.Core.Path.{subst}
use apoll_os.Paging.{Layout, Paging, init_loop, init_paging}
use apoll_os.Paging.Translate.{Mapping, walk, translate, translate-empty, bit_set, through_table}

-- The four tables are arrays of 1024 words.
pub record HasTables (p : Paging) : Type 0 where
  pub dir : length p.page_dir ≡ 1024
  pub table : length p.page_table ≡ 1024

-- The entries below `i` of the directory and the page table that the loop has filled.
record FilledTo (i : ℕ) (p : Paging) : Type 0 where
  whole : HasTables p
  dir : (j : ℕ) → j < i → get_elem? p.page_dir j ≡ some 2
  table : (j : ℕ) → j < i → get_elem? p.page_table j ≡ some (j * 4096 + 2)

set-filled :
    (xs : List ℕ) (f : ℕ → ℕ) (i : ℕ)
    → i < length xs
    → ((j : ℕ) → j < i → get_elem? xs j ≡ some (f j))
    → (j : ℕ) → j < i + 1
    → get_elem? (set xs i (f i)) j ≡ some (f j)
set-filled xs f i room below j h = get_elem?-set_if xs i j (f i) room ∙ elim (Bool-cases (i == j)) [
  | inl here ↦ let e : i ≡ j = ground arith in rw here (ap (λ n. some (f n)) e)
  | inr there ↦ rw there (below j (ground arith))
]

table_entry : (i : ℕ) → i < 1024 → bit_or (u32 (4096 * i)) 2 ≡ i * 4096 + 2
table_entry i h =
    let e : u32 (4096 * i) ≡ i * 4096 = omega arith in
    ap (λ n. bit_or n 2) e ∙ bit_or-low 12 i 2 (omega arith)

init_loop-FilledTo :
    (k i n : ℕ) (p : Paging)
    → i + k ≡ n
    → n ≤ 1024
    → FilledTo i p
    → (p' : Paging) × (init_loop k i p ≡ some p') × FilledTo n p'
unfolding init_loop
init_loop-FilledTo zero i n p e h f = (p, refl, subst (λ j. FilledTo j p) (omega (arith, e)) f)
init_loop-FilledTo (suc k) i n p e h f =
    let in_dir : i < length p.page_dir = omega (arith, f.whole.dir) in
    let in_table : i < length p.page_table = omega (arith, f.whole.table) in
    let q = record p {
      page_dir = set p.page_dir i 2;
      page_table = set p.page_table i (i * 4096 + 2);
    } in
    let fq : FilledTo (i + 1) q = record {
      whole = record {
        dir = length-set p.page_dir i 2 ∙ f.whole.dir;
        table = length-set p.page_table i (i * 4096 + 2) ∙ f.whole.table;
      };
      dir = set-filled p.page_dir (λ j. 2) i in_dir f.dir;
      table = set-filled p.page_table (λ j. j * 4096 + 2) i in_table f.table;
    } in
    let (p', run, f') = init_loop-FilledTo k (i + 1) n q (omega (arith, e)) h fq in
    let dir_stored = store-set p.page_dir i 2 in_dir in
    let table_stored = store-set p.page_table i (i * 4096 + 2) in_table in
    (p', rw (dir_stored, table_entry i (omega arith), table_stored, run), f')

-- The page table is aligned to 4 KB, and its address is not that of another table.
pub record IsAligned (l : Layout) (q : ℕ) : Type 0 where
  pub table : l.page_table_at ≡ q * 4096
  pub small : q < 2 ^ 20

-- The kernel's 4 MB and the video page stand at their own addresses, for the kernel alone, and
-- nothing else is there.
abbrev pub kernel_map : ℕ → Option Mapping
kernel_map v =
    if v / 4194304 == 1 || v / 4096 == 0xb8
    then some (record { physical = v; user = false })
    else none

abbrev dir_entry : ℕ → ℕ → ℕ
dir_entry q j = if j == 0 then q * 4096 + 3 else if j == 1 then 0x400083 else 2

abbrev page_entry : ℕ → ℕ
page_entry j = if j == 0xb8 then j * 4096 + 3 else j * 4096 + 2

record IsBoot (l : Layout) (q : ℕ) (p : Paging) : Type 0 where
  dir : (j : ℕ) → j < 1024 → get_elem? p.page_dir j ≡ some (dir_entry q j)
  page : (j : ℕ) → j < 1024 → get_elem? p.page_table j ≡ some (page_entry j)

abbrev kernel_only : ℕ → Mapping
kernel_only a = record { physical = a; user = false }

through_page :
    (p : Paging) (v : ℕ)
    → v / 4194304 ≡ 0
    → get_elem? p.page_table (v / 4096 % 1024) ≡ some (page_entry (v / 4096 % 1024))
    → through_table p.page_table v false ≡ kernel_map v
through_page p v low at =
    let j : ℕ = v / 4096 % 1024 in
    let same : v / 4096 ≡ j = omega (arith, low) in
    let not_one : (v / 4194304 == 1) ≡ false = ground (arith, low) in
    elim (Bool-cases (j == 0xb8)) [
      | inl video ↦
          let e : ℕ = j * 4096 + 3 in
          let present : bit_set e 0 ≡ true = ground arith in
          let here : (v / 4096 == 0xb8) ≡ true = ground (arith, same) in
          let address : e / 4096 * 4096 + v % 4096 ≡ v = omega (arith, same) in
          rw (at, video, present, not_one, here) (ap (λ a. some (kernel_only a)) address)
      | inr other ↦
          let e : ℕ = j * 4096 + 2 in
          let absent : bit_set e 0 ≡ false = ground arith in
          let there : (v / 4096 == 0xb8) ≡ false = ground (arith, same) in
          rw (at, other, absent, not_one, there)
    ]

walk-IsBoot :
    (l : Layout) (p : Paging) (q v : ℕ)
    → IsAligned l q
    → IsBoot l q p
    → v < 2 ^ 32
    → walk l p v ≡ kernel_map v
unfolding walk
walk-IsBoot l p q v a b small =
    let at = b.dir (v / 4194304) (omega (arith, small)) in
    elim (Bool-cases (v / 4194304 == 0)) [
      | inl low ↦
          let e : ℕ = q * 4096 + 3 in
          let low_lem : v / 4194304 ≡ 0 = ground arith in
          let present : bit_set e 0 ≡ true = ground arith in
          let small_page : bit_set e 7 ≡ false = ground arith in
          let kernel : bit_set e 2 ≡ false = ground arith in
          let points : (e / 4096 * 4096 == l.page_table_at) ≡ true = ground (arith, a.table) in
          rw (at, low, present, small_page, points, kernel)
            (through_page p v low_lem (b.page (v / 4096 % 1024) (omega arith)))
      | inr high ↦ elim (Bool-cases (v / 4194304 == 1)) [
        | inl kernel ↦
            let address : 4194304 + v % 4194304 ≡ v = ground arith in
            rw (at, high, kernel) (ap (λ a. some (kernel_only a)) address)
        | inr other ↦
            let no_video : (v / 4096 == 0xb8) ≡ false = ground arith in
            rw (at, high, other, no_video)
      ]
    ]

boot_dir :
    (d : List ℕ) (q j : ℕ)
    → length d ≡ 1024
    → get_elem? d j ≡ some 2
    → get_elem? (set (set d 0 (q * 4096 + 3)) 1 0x400083) j ≡ some (dir_entry q j)
boot_dir d q j size at =
    let e : ℕ = q * 4096 + 3 in
    let size1 : length (set d 0 e) ≡ 1024 = length-set d 0 e ∙ size in
    let outer = get_elem?-set_if (set d 0 e) 1 j 0x400083 (omega (arith, size1)) in
    let inner = get_elem?-set_if d 0 j e (omega (arith, size)) in
    outer ∙ elim (Bool-cases (1 == j)) [
      | inl one ↦
          let first : (j == 0) ≡ false = ground arith in
          let second : (j == 1) ≡ true = ground arith in rw (one, first, second)
      | inr not_one ↦
          let second : (j == 1) ≡ false = ground arith in
          rw (not_one, inner)
            (elim (Bool-cases (0 == j)) [
              | inl zeroth ↦ let first : (j == 0) ≡ true = ground arith in rw (zeroth, first)
              | inr not_zeroth ↦
                  let first : (j == 0) ≡ false = ground arith in rw (not_zeroth, first, second, at)
            ])
    ]

boot_page :
    (t : List ℕ) (j : ℕ)
    → length t ≡ 1024
    → get_elem? t j ≡ some (j * 4096 + 2)
    → get_elem? (set t 0xb8 (0xb8 * 4096 + 3)) j ≡ some (page_entry j)
boot_page t j size at =
    get_elem?-set_if t 0xb8 j (0xb8 * 4096 + 3) (omega (arith, size))
    ∙ elim (Bool-cases (0xb8 == j)) [
      | inl here ↦
          let same : 0xb8 ≡ j = ground arith in
          let video : (j == 0xb8) ≡ true = ground arith in
          rw (here, video) (ap (λ n. some (n * 4096 + 3)) same)
      | inr there ↦ let other : (j == 0xb8) ≡ false = ground arith in rw (there, other, at)
    ]

-- With a page table that is aligned to 4 KB and tables of 1024 words, whatever the TLB has cached,
-- `init_paging` stays inside the tables, sets the control registers for paging, and the processor
-- then translates every address of the kernel's 4 MB and of the video page to itself, for the
-- kernel alone, and finds no other 32-bit address.
pub translate-init_paging :
    (l : Layout) (p : Paging) (q v : ℕ)
    → IsAligned l q
    → HasTables p
    → v < 2 ^ 32
    → (p' : Paging) × (init_paging l p ≡ some p')
      × (translate l p' v ≡ kernel_map v)
      × (p'.cr3 ≡ l.page_dir_at)
      × (p'.cr0 ≡ bit_or p.cr0 0x80000000)
      × (p'.cr4 ≡ bit_or p.cr4 0x10)
unfolding init_paging
translate-init_paging l p q v a h small =
    let nothing : FilledTo 0 p = record {
      whole = h;
      dir = λ j e. absurd (omega arith);
      table = λ j e. absurd (omega arith);
    } in
    let (p1, run, f) = init_loop-FilledTo 1024 0 1024 p refl (omega arith) nothing in
    let pde0 = q * 4096 + 3 in
    let pte = 0xb8 * 4096 + 3 in
    let size1 : length (set p1.page_dir 0 pde0) ≡ 1024 =
      length-set p1.page_dir 0 pde0 ∙ f.whole.dir in
    let dir_stored = store-set p1.page_dir 0 pde0 (omega (arith, f.whole.dir)) in
    let kernel_stored = store-set (set p1.page_dir 0 pde0) 1 0x400083 (omega (arith, size1)) in
    let page_stored = store-set p1.page_table 0xb8 pte (omega (arith, f.whole.table)) in
    let first : bit_or l.page_table_at 3 ≡ pde0 =
      ap (λ n. bit_or n 3) a.table ∙ bit_or-low 12 q 3 (omega arith) in
    let p' = record p1 {
      page_dir = set (set p1.page_dir 0 pde0) 1 0x400083;
      page_table = set p1.page_table 0xb8 pte;
      cr3 = l.page_dir_at;
      tlb = [];
      cr4 = bit_or p.cr4 0x10;
      cr0 = bit_or p.cr0 0x80000000;
    } in
    let boot : IsBoot l q p' = record {
      dir = λ j below. boot_dir p1.page_dir q j f.whole.dir (f.dir j below);
      page = λ j below. boot_page p1.page_table j f.whole.table (f.table j below);
    } in
    (
      p',
      rw (run, first, dir_stored, kernel_stored, f.table 0xb8 (omega arith), page_stored),
      translate-empty l p' v refl ∙ walk-IsBoot l p' q v a boot small,
      refl,
      refl,
      refl,
    )
