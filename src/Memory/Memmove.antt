-- ===== src/Memory/Memmove.antt =====
-- `memmove` of student-distrib/lib.c, upwards and downwards.
use apoll_os.Prelude.{
  ℕ, zero, suc, ◌+◌, ◌-◌, ◌≤◌, ◌≡◌, refl, inl, inr, arith, List, leb, Bool-cases, length,
}
use mathlib.Core.Path.{subst}
use apoll_os.Memory.{move_down, memmove}
use apoll_os.Memory.Copy.{Copied, Copies, Copied-none, Copied-below, movsb-Copies, move_up-Copies}

-- Downwards, from the last bytes of the two blocks.
move_down-Copies :
    (n dst src : ℕ) (mem : List ℕ)
    → dst + n ≤ length mem
    → src ≤ dst
    → Copies n dst src mem (move_down n (dst + n - 1) (src + n - 1) mem)
unfolding move_down
move_down-Copies zero dst src mem hd down = (mem, refl, Copied-none dst src mem)
move_down-Copies (suc n) dst src mem hd down =
    let (mid, first, a) = movsb-Copies (dst + n) (src + n) mem (omega arith) (omega arith) in
    let (out, rest, b) = move_down-Copies n dst src mid (omega (arith, a.size)) down in
    let e : n + 1 ≡ suc n = omega arith in
    let to : dst + suc n - 1 ≡ dst + n = omega arith in
    let from : src + suc n - 1 ≡ src + n = omega arith in
    (
      out,
      rw (to, from, first) rest,
      subst (λ t. Copied t dst src mem out) e (Copied-below 1 n dst src mem mid out down a b),
    )

-- For two blocks inside memory, which may overlap in either way, `memmove` stays inside them,
-- leaves in the destination what the source held before, and changes no other byte.
pub memmove-Copies :
    (mem : List ℕ) (dest src n : ℕ)
    → dest + n ≤ length mem
    → src + n ≤ length mem
    → Copies n dest src mem (memmove mem dest src n)
unfolding memmove
memmove-Copies mem dest src n hd hs = elim (Bool-cases (leb dest src)) [
  | inl up ↦ rw up (move_up-Copies n dest src mem (hd, hs, inl (ground arith)))
  | inr down ↦ rw down (move_down-Copies n dest src mem hd (ground arith))
]
