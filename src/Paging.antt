-- ===== src/Paging.antt =====
-- The page tables of student-distrib/paging.c. Where the linker puts the tables is a parameter; the
-- control registers are those that the assembly writes. The TLB may hold any translation that the
-- processor has used since cr3 was last written, which empties it.
pub mod Translate
pub mod Programs
pub mod Start
use apoll_os.Prelude.{
  ℕ, zero, suc, Bool, [], ◌+◌, ◌*◌, ◌/◌, bit_or, Option, some, List, get_elem?, store, ◌>>=◌, u32,
}

abbrev pub arr_size : ℕ
arr_size = 1024

abbrev pub four_kb : ℕ
four_kb = 4096

abbrev pub four_mb : ℕ
four_mb = 4194304

-- The addresses of the tables.
pub record Layout : Type 0 where
  pub page_dir_at : ℕ
  pub page_table_at : ℕ
  pub user_table_at : ℕ
  pub video_table_at : ℕ

-- A translation in the TLB: a page of 4 KB, its frame, and whether user code may use it.
pub record Cached : Type 0 where
  pub page : ℕ
  pub frame : ℕ
  pub user : Bool

pub record Paging : Type 0 where
  pub page_dir : List ℕ
  pub page_table : List ℕ
  pub user_table : List ℕ
  pub video_table : List ℕ
  pub cr0 : ℕ
  pub cr3 : ℕ
  pub cr4 : ℕ
  pub tlb : List Cached

unfoldable pub refresh_tbl : Paging → Paging
refresh_tbl p = record p { tlb = [] }

-- The rounds of the loop of `init_paging` from `i` on.
init_loop : ℕ → ℕ → Paging → Option Paging
init_loop zero i p = some p
init_loop (suc k) i p = do
  dir ← store p.page_dir i 0x00000002
  table ← store p.page_table i (bit_or (u32 (four_kb * i)) 2)
  init_loop k (i + 1) (record p { page_dir = dir; page_table = table })

unfoldable pub remap : ℕ → ℕ → Paging → Option Paging
remap v_addr p_addr p = do
  dir ← store p.page_dir (v_addr / four_mb) (bit_or p_addr 0x87)
  some (refresh_tbl (record p { page_dir = dir }))

module _ (l : Layout) where
  pub init_paging : Paging → Option Paging
  unfolding init_loop
  init_paging p = do
    p' ← init_loop arr_size 0 p
    dir ← store p'.page_dir 0 (bit_or l.page_table_at 3)
    dir' ← store dir 1 (bit_or four_mb 0x83)
    video ← get_elem? p'.page_table 0xb8
    table ← store p'.page_table 0xb8 (bit_or video 3)
    some (record p' {
      page_dir = dir';
      page_table = table;
      cr3 = l.page_dir_at;
      tlb = [];
      cr4 = bit_or p.cr4 0x00000010;
      cr0 = bit_or p.cr0 0x80000000;
    })

  unfoldable pub remap_with_page_table : ℕ → ℕ → Paging → Option Paging
  remap_with_page_table v_addr p_addr p = do
    dir ← store p.page_dir (v_addr / four_mb) (bit_or l.user_table_at 7)
    table ← store p.user_table 0 (bit_or p_addr 7)
    some (refresh_tbl (record p { page_dir = dir; user_table = table }))

  unfoldable pub remap_video : ℕ → ℕ → Paging → Option Paging
  remap_video v_addr p_addr p = do
    dir ← store p.page_dir (v_addr / four_mb) (bit_or l.video_table_at 7)
    table ← store p.video_table 0 (bit_or p_addr 7)
    some (refresh_tbl (record p { page_dir = dir; video_table = table }))

  unfoldable pub remap_to_page : ℕ → ℕ → ℕ → Paging → Option Paging
  remap_to_page v_addr p_addr page p = do
    dir ← store p.page_dir (v_addr / four_mb) (bit_or l.user_table_at 7)
    table ← store p.user_table page (bit_or p_addr 7)
    some (refresh_tbl (record p { page_dir = dir; user_table = table }))
