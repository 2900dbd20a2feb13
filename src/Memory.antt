-- ===== src/Memory.antt =====
-- The memory functions of student-distrib/lib.c, instruction by instruction. Memory is a list of
-- bytes by address, `edi` and `esi` are addresses, `ecx` counts down, and an access outside memory is
-- a fault.
pub mod Copy
pub mod Fill
pub mod Memset
pub mod Memcpy
pub mod Memmove
use apoll_os.Prelude.{
  ℕ, zero, suc, ◌+◌, ◌-◌, ◌*◌, ◌/◌, ◌%◌, bit_or, Option, some, List, leb, ◌==◌, if◌then◌else◌,
  get_elem?, store, ◌>>=◌, u16,
}

-- `movb %al, (%edi)` until `edx` is 0: `.memset_bottom`.
unfoldable pub memset_bottom : ℕ → ℕ → ℕ → List ℕ → Option (List ℕ)
memset_bottom zero edi al mem = some mem
memset_bottom (suc edx) edi al mem = do mem' ← store mem edi al; memset_bottom edx (edi + 1) al mem'

-- The two and four bytes of a word, the lowest first.
unfoldable pub stosw : ℕ → ℕ → List ℕ → Option (List ℕ)
stosw edi ax mem = do mem' ← store mem edi (ax % 256); store mem' (edi + 1) (ax / 256 % 256)

unfoldable pub stosl : ℕ → ℕ → List ℕ → Option (List ℕ)
stosl edi eax mem = do
  m1 ← store mem edi (eax % 256)
  m2 ← store m1 (edi + 1) (eax / 256 % 256)
  m3 ← store m2 (edi + 2) (eax / 65536 % 256)
  store m3 (edi + 3) (eax / 16777216 % 256)

-- `rep stosw` and `rep stosl`.
unfoldable pub rep_stosw : ℕ → ℕ → ℕ → List ℕ → Option (List ℕ)
rep_stosw zero edi ax mem = some mem
rep_stosw (suc ecx) edi ax mem = do mem' ← stosw edi ax mem; rep_stosw ecx (edi + 2) ax mem'

unfoldable pub rep_stosl : ℕ → ℕ → ℕ → List ℕ → Option (List ℕ)
rep_stosl zero edi eax mem = some mem
rep_stosl (suc ecx) edi eax mem = do mem' ← stosl edi eax mem; rep_stosl ecx (edi + 4) eax mem'

-- `.memset_top`: single bytes up to an address that 4 divides, then words, then the bytes left over.
unfoldable pub memset_top : ℕ → ℕ → ℕ → List ℕ → Option (List ℕ)
memset_top zero edi eax mem = some mem
memset_top (suc ecx) edi eax mem =
    let aligned = (do
      mem' ← rep_stosl ((ecx + 1) / 4) edi eax mem
      memset_bottom ((ecx + 1) % 4) (edi + (ecx + 1) / 4 * 4) (eax % 256) mem') in
    let next = (do mem' ← store mem edi (eax % 256); memset_top ecx (edi + 1) eax mem') in
    if edi % 4 == 0 then aligned else next

-- `c << 24 | c << 16 | c << 8 | c`.
abbrev pub four_times : ℕ → ℕ
four_times c = bit_or (bit_or (bit_or (c * 16777216) (c * 65536)) (c * 256)) c

unfoldable pub memset : List ℕ → ℕ → ℕ → ℕ → Option (List ℕ)
memset mem s c n = memset_top n s (four_times (c % 256)) mem

unfoldable pub memset_word : List ℕ → ℕ → ℕ → ℕ → Option (List ℕ)
memset_word mem s c n = rep_stosw n s (u16 c) mem

unfoldable pub memset_dword : List ℕ → ℕ → ℕ → ℕ → Option (List ℕ)
memset_dword mem s c n = rep_stosl n s c mem

-- A byte is loaded from `esi` and stored to `edi`.
unfoldable pub movsb : ℕ → ℕ → List ℕ → Option (List ℕ)
movsb edi esi mem = do b ← get_elem? mem esi; store mem edi b

-- Four bytes are loaded before the first is stored.
unfoldable pub movsl : ℕ → ℕ → List ℕ → Option (List ℕ)
movsl edi esi mem = do
  b0 ← get_elem? mem esi
  b1 ← get_elem? mem (esi + 1)
  b2 ← get_elem? mem (esi + 2)
  b3 ← get_elem? mem (esi + 3)
  m1 ← store mem edi b0
  m2 ← store m1 (edi + 1) b1
  m3 ← store m2 (edi + 2) b2
  store m3 (edi + 3) b3

-- `rep movsb` and the byte loops, with the direction flag clear.
unfoldable pub move_up : ℕ → ℕ → ℕ → List ℕ → Option (List ℕ)
move_up zero edi esi mem = some mem
move_up (suc ecx) edi esi mem = do mem' ← movsb edi esi mem; move_up ecx (edi + 1) (esi + 1) mem'

-- `rep movsb` with the direction flag set: the addresses are those of the last bytes. The wrap below
-- address 0 is behind the last store.
unfoldable pub move_down : ℕ → ℕ → ℕ → List ℕ → Option (List ℕ)
move_down zero edi esi mem = some mem
move_down (suc ecx) edi esi mem = do
  mem' ← movsb edi esi mem
  move_down ecx (edi - 1) (esi - 1) mem'

unfoldable pub rep_movsl : ℕ → ℕ → ℕ → List ℕ → Option (List ℕ)
rep_movsl zero edi esi mem = some mem
rep_movsl (suc ecx) edi esi mem = do
  mem' ← movsl edi esi mem
  rep_movsl ecx (edi + 4) (esi + 4) mem'

-- `.memcpy_top`.
unfoldable pub memcpy_top : ℕ → ℕ → ℕ → List ℕ → Option (List ℕ)
memcpy_top zero edi esi mem = some mem
memcpy_top (suc ecx) edi esi mem =
    let words : ℕ = (ecx + 1) / 4 in
    let aligned = (do
      mem' ← rep_movsl words edi esi mem
      move_up ((ecx + 1) % 4) (edi + words * 4) (esi + words * 4) mem') in
    let next = (do mem' ← movsb edi esi mem; memcpy_top ecx (edi + 1) (esi + 1) mem') in
    if edi % 4 == 0 then aligned else next

unfoldable pub memcpy : List ℕ → ℕ → ℕ → ℕ → Option (List ℕ)
memcpy mem dest src n = memcpy_top n dest src mem

-- `cmp %edi, %esi; jae`: upwards if the source is not below the destination.
unfoldable pub memmove : List ℕ → ℕ → ℕ → ℕ → Option (List ℕ)
memmove mem dest src n =
    if leb dest src then move_up n dest src mem else move_down n (dest + n - 1) (src + n - 1) mem
