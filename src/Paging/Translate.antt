-- ===== src/Paging/Translate.antt =====
-- What a page directory means: the two-level address translation of 32-bit x86, as its manual has
-- it. It describes the processor, and is what the functions of student-distrib/paging.c are held
-- against.
use apoll_os.Prelude.{
  ℕ, ◌+◌, ◌*◌, ◌/◌, ◌%◌, ◌^◌, Bool, not, ◌&&◌, Option, none, some, List, [], ◌∷◌, ◌≡◌, ◌==◌,
  if◌then◌else◌, get_elem?, ◌>>=◌,
}
use apoll_os.Paging.{Layout, Cached, Paging}

-- A physical address, and whether user code may use it.
pub record Mapping : Type 0 where
  pub physical : ℕ
  pub user : Bool

abbrev pub bit_set : ℕ → ℕ → Bool
bit_set w j = w / 2 ^ j % 2 == 1

-- The table that an entry of the directory points to.
abbrev pub table_at : Layout → Paging → ℕ → Option (List ℕ)
table_at l p addr =
    if addr == l.page_table_at
    then some p.page_table
    else if addr == l.user_table_at
    then some p.user_table
    else if addr == l.video_table_at
    then some p.video_table
    else none

abbrev pub through_table : List ℕ → ℕ → Bool → Option Mapping
through_table table v user = do
  pte ← get_elem? table (v / 2 ^ 12 % 1024)
  if bit_set pte 0
      then some
          (record { physical = pte / 2 ^ 12 * 2 ^ 12 + v % 2 ^ 12; user = user && bit_set pte 2 })
      else none

-- Bit 0 is present, bit 2 is user, bit 7 is a page of 4 MB.
abbrev pub through_entry : Layout → Paging → ℕ → ℕ → Option Mapping
through_entry l p v pde =
    if not (bit_set pde 0)
    then none
    else if bit_set pde 7
    then some (record { physical = pde / 2 ^ 22 * 2 ^ 22 + v % 2 ^ 22; user = bit_set pde 2 })
    else (do table ← table_at l p (pde / 2 ^ 12 * 2 ^ 12); through_table table v (bit_set pde 2))

-- The tables in memory.
unfoldable pub walk : Layout → Paging → ℕ → Option Mapping
walk l p v = do pde ← get_elem? p.page_dir (v / 2 ^ 22); through_entry l p v pde

-- The first translation that the TLB holds for an address.
abbrev pub lookup : List Cached → ℕ → Option Mapping
lookup [] v = none
lookup (c ∷ cs) v =
    if c.page == v / 2 ^ 12
    then some (record { physical = c.frame * 2 ^ 12 + v % 2 ^ 12; user = c.user })
    else lookup cs v

abbrev or_else : Option Mapping → Option Mapping → Option Mapping
or_else none o = o
or_else (some m) o = some m

-- The processor goes by the TLB where it holds a translation, even where the tables have changed.
unfoldable pub translate : Layout → Paging → ℕ → Option Mapping
unfolding walk
translate l p v = or_else (lookup p.tlb v) (walk l p v)

-- On an empty TLB that is the tables.
pub translate-empty : (l : Layout) (p : Paging) (v : ℕ) → p.tlb ≡ [] → translate l p v ≡ walk l p v
unfolding translate
translate-empty l p v e = rw e
