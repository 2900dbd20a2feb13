-- ===== src/Tests/Memory.antt =====
-- Tests of the memory functions and of the interrupt table of student-distrib/.
use apoll_os.Prelude.{
  ℕ, ◌^◌, ◌<◌, ◌≡◌, refl, inl, arith, some, List, [], ◌∷◌, get_elem?, replicate, length-replicate,
}
use apoll_os.Memory.{memcpy, memmove, memset}
use apoll_os.Memory.Copy.{Copies}
use apoll_os.Memory.Fill.{Fills}
use apoll_os.Memory.Memcpy.{memcpy-Copies}
use apoll_os.Memory.Memmove.{memmove-Copies}
use apoll_os.Memory.Memset.{memset-Fills}
use apoll_os.Idt.{Handler, Gate, init_idt}
use apoll_os.Idt.Targets.{IsGate, init_idt-IsGate}

abbrev ten_bytes : List ℕ
ten_bytes = 10 ∷ 11 ∷ 12 ∷ 13 ∷ 14 ∷ 15 ∷ 16 ∷ 17 ∷ 18 ∷ 19 ∷ []

-- The blocks overlap, the destination above the source.
memmove-Copies_example : Copies 6 3 1 ten_bytes (memmove ten_bytes 3 1 6)
memmove-Copies_example = memmove-Copies ten_bytes 3 1 6 (omega arith) (omega arith)

memcpy-Copies_example : Copies 6 1 3 ten_bytes (memcpy ten_bytes 1 3 6)
memcpy-Copies_example = memcpy-Copies ten_bytes 1 3 6 (omega arith, omega arith, inl (omega arith))

memset-Fills_example : Fills 7 7 2 ten_bytes (memset ten_bytes 2 0x107 7)
memset-Fills_example = memset-Fills ten_bytes 2 0x107 7 (omega arith)

abbrev empty_gate : Gate
empty_gate = record {
  offset_15_00 = 0;
  seg_selector = 0;
  reserved4 = 0;
  reserved3 = 0;
  reserved2 = 0;
  reserved1 = 0;
  size = 0;
  reserved0 = 0;
  dpl = 0;
  present = 0;
  offset_31_16 = 0;
}

abbrev same_address : Handler → ℕ
same_address h = 0x400abc

same_address-fits : (h : Handler) → same_address h < 2 ^ 32
same_address-fits h = omega arith

init_idt-IsGate_example :
    (out : List Gate) × (g : Gate) × (init_idt same_address (replicate 256 empty_gate) ≡ some out)
    × (get_elem? out 0x80 ≡ some g)
    × IsGate same_address same_address-fits 0x80 empty_gate g
init_idt-IsGate_example =
    init_idt-IsGate same_address same_address-fits (replicate 256 empty_gate) 0x80 empty_gate
      (length-replicate {A = Gate} 256 empty_gate) refl
