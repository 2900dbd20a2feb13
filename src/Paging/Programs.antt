-- ===== src/Paging/Programs.antt =====
-- What `remap` of student-distrib/paging.c changes in the address space, with the processor's TLB.
use apoll_os.Prelude.{
  ℕ, ◌+◌, ◌*◌, ◌/◌, ◌%◌, ◌^◌, ◌<◌, bit_or, ◌≡◌, ◌≢◌, ◌∙◌, refl, inl, inr, arith, true, some, ◌==◌,
  if◌then◌else◌, Bool-cases, length, set, get_elem?-set_self, get_elem?-set_ne, store-set,
  bit_or-low,
}
use apoll_os.Paging.{Layout, Paging, remap, refresh_tbl}
use apoll_os.Paging.Translate.{walk, translate, translate-empty, bit_set, through_entry}

-- The directory has an entry for every 4 MB.
abbrev pub IsDirectory : Paging → Type 0
IsDirectory p = length p.page_dir ≡ 1024

large_entry : (q : ℕ) → bit_or (q * 4194304) 0x87 ≡ q * 4194304 + 0x87
large_entry q = bit_or-low 22 q 0x87 (omega arith)

through_large :
    (l : Layout) (p : Paging) (v q : ℕ)
    → through_entry l p v (q * 4194304 + 0x87)
      ≡ some (record { physical = q * 4194304 + v % 4194304; user = true })
through_large l p v q =
    let e : ℕ = q * 4194304 + 0x87 in
    let present : bit_set e 0 ≡ true = ground arith in
    let user : bit_set e 2 ≡ true = ground arith in
    let large : bit_set e 7 ≡ true = ground arith in
    let base : e / 2 ^ 22 ≡ q = omega arith in rw (present, user, large, base)

-- With a whole page directory, whatever the TLB has cached, after `remap` of a 32-bit address to a
-- frame of 4 MB the processor, which asks its TLB first, translates every address in the page of 4
-- MB of that address to the same offset in the frame, for user code too, and every other 32-bit
-- address as the tables said before.
pub translate-remap :
    (l : Layout) (p : Paging) (v_addr q v : ℕ)
    → IsDirectory p
    → v_addr < 2 ^ 32
    → v < 2 ^ 32
    → (p' : Paging) × (remap v_addr (q * 4194304) p ≡ some p')
      × (translate l p' v ≡ (
          if v / 4194304 == v_addr / 4194304
          then some (record { physical = q * 4194304 + v % 4194304; user = true })
          else walk l p v))
unfolding remap refresh_tbl walk
translate-remap l p v_addr q v d hv h =
    let i : ℕ = v_addr / 4194304 in
    let in_dir : i < length p.page_dir = omega arith in
    let p' = refresh_tbl (record p { page_dir = set p.page_dir i (q * 4194304 + 0x87) }) in
    (
      p',
      rw (large_entry q, store-set p.page_dir i (q * 4194304 + 0x87) in_dir),
      translate-empty l p' v refl ∙ elim (Bool-cases (v / 4194304 == i)) [
        | inl here ↦
            let e : v / 2 ^ 22 ≡ i = ground arith in
            rw (here, e, get_elem?-set_self p.page_dir i (q * 4194304 + 0x87) in_dir)
              (through_large l p' v q)
        | inr there ↦
            let ne : i ≢ v / 2 ^ 22 = ground arith in
            rw (there, get_elem?-set_ne p.page_dir i (v / 2 ^ 22) (q * 4194304 + 0x87) ne)
      ],
    )
