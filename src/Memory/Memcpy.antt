-- ===== src/Memory/Memcpy.antt =====
-- `memcpy` of student-distrib/lib.c: its loop over words copies what a loop over bytes would.
use apoll_os.Prelude.{
  ℕ, zero, suc, ◌+◌, ◌*◌, ◌/◌, ◌%◌, ◌≤◌, ◌≡◌, refl, ap, ◌∙◌, ◌⊎◌, inl, inr, arith, List, ◌==◌,
  Bool-cases, length, get_elem?, set, get_elem?-in, store-set, ◌>>=◌,
}
use mathlib.Core.Path.{subst}
use apoll_os.Memory.{movsl, move_up, rep_movsl, memcpy_top, memcpy}
use apoll_os.Memory.Copy.{
  Copied, Copies, Fits, Copied-none, Copied-store, Copied-above, movsb-Copies, move_up-Copies,
}

movsl-Copies :
    (dst src : ℕ) (mem : List ℕ)
    → dst + 4 ≤ length mem
    → src + 4 ≤ length mem
    → Copies 4 dst src mem (movsl dst src mem)
unfolding movsl
movsl-Copies dst src mem hd hs =
    let (b0, at0) = get_elem?-in mem src (omega arith) in
    let (b1, at1) = get_elem?-in mem (src + 1) (omega arith) in
    let (b2, at2) = get_elem?-in mem (src + 2) (omega arith) in
    let (b3, at3) = get_elem?-in mem (src + 3) (omega arith) in
    let zero_more : (n : ℕ) → n + 0 ≡ n = λ n. omega arith in
    let m1 = set mem dst b0 in
    let m2 = set m1 (dst + 1) b1 in
    let m3 = set m2 (dst + 2) b2 in
    let m4 = set m3 (dst + 3) b3 in
    let c1 : Copied 1 dst src mem m1 =
      subst (λ t. Copied 1 dst src mem (set mem t b0)) (zero_more dst)
        (Copied-store 0 dst src mem mem b0 (Copied-none dst src mem)
          (ap (get_elem? mem) (zero_more src) ∙ at0) (omega arith)) in
    let c2 = Copied-store 1 dst src mem m1 b1 c1 at1 (omega arith) in
    let c3 = Copied-store 2 dst src mem m2 b2 c2 at2 (omega arith) in
    let c4 = Copied-store 3 dst src mem m3 b3 c3 at3 (omega arith) in
    (
      m4,
      rw (
        at0,
        at1,
        at2,
        at3,
        store-set mem dst b0 (omega arith),
        store-set m1 (dst + 1) b1 (omega (arith, c1.size)),
        store-set m2 (dst + 2) b2 (omega (arith, c2.size)),
        store-set m3 (dst + 3) b3 (omega (arith, c3.size)),
      ),
      c4,
    )

rep_movsl-Copies :
    (n dst src : ℕ) (mem : List ℕ)
    → Fits (4 * n) dst src mem
    → Copies (4 * n) dst src mem (rep_movsl n dst src mem)
unfolding rep_movsl
rep_movsl-Copies zero dst src mem fits = (mem, refl, Copied-none dst src mem)
rep_movsl-Copies (suc n) dst src mem (hd, hs, apart) =
    let (mid, first, a) = movsl-Copies dst src mem (omega arith) (omega arith) in
    let safe : (dst + 4 ≤ src + 4) ⊎ (src + 4 + 4 * n ≤ dst + 4) = elim apart [
      | inl up ↦ inl (omega arith)
      | inr off ↦ inr (omega arith)
    ] in
    let (out, rest, b) =
      rep_movsl-Copies n (dst + 4) (src + 4) mid
        (omega (arith, a.size), omega (arith, a.size), safe) in
    let e : 4 + 4 * n ≡ 4 * suc n = omega arith in
    let apart' : (dst ≤ src) ⊎ (src + (4 + 4 * n) ≤ dst) = elim apart [
      | inl up ↦ inl up
      | inr off ↦ inr (omega arith)
    ] in
    (
      out,
      rw first rest,
      subst (λ t. Copied t dst src mem out) e
          (Copied-above 4 (4 * n) dst src mem mid out apart' a b),
    )

-- The words from an aligned address on, and the bytes that are left over.
aligned-Copies :
    (n dst src : ℕ) (mem : List ℕ)
    → Fits n dst src mem
    → Copies n dst src mem
        (rep_movsl (n / 4) dst src mem >>= move_up (n % 4) (dst + n / 4 * 4) (src + n / 4 * 4))
aligned-Copies n dst src mem (hd, hs, apart) =
    let q = n / 4 in
    let apart1 : (dst ≤ src) ⊎ (src + 4 * q ≤ dst) = elim apart [
      | inl up ↦ inl up
      | inr off ↦ inr (omega arith)
    ] in
    let (mid, first, a) = rep_movsl-Copies q dst src mem (omega arith, omega arith, apart1) in
    let e : q * 4 ≡ 4 * q = omega arith in
    let apart2 : (dst + 4 * q ≤ src + 4 * q) ⊎ (src + 4 * q + n % 4 ≤ dst + 4 * q) = elim apart [
      | inl up ↦ inl (omega arith)
      | inr off ↦ inr (omega arith)
    ] in
    let (out, rest, b) =
      move_up-Copies (n % 4) (dst + 4 * q) (src + 4 * q) mid
        (omega (arith, a.size), omega (arith, a.size), apart2) in
    let all : 4 * q + n % 4 ≡ n = omega arith in
    let apart3 : (dst ≤ src) ⊎ (src + (4 * q + n % 4) ≤ dst) = elim apart [
      | inl up ↦ inl up
      | inr off ↦ inr (omega arith)
    ] in
    (
      out,
      rw (first, e) rest,
      subst (λ t. Copied t dst src mem out) all
          (Copied-above (4 * q) (n % 4) dst src mem mid out apart3 a b),
    )

memcpy_top-Copies :
    (n dst src : ℕ) (mem : List ℕ)
    → Fits n dst src mem
    → Copies n dst src mem (memcpy_top n dst src mem)
unfolding memcpy_top
memcpy_top-Copies zero dst src mem fits = (mem, refl, Copied-none dst src mem)
memcpy_top-Copies (suc n) dst src mem (hd, hs, apart) = elim (Bool-cases (dst % 4 == 0)) [
  | inl aligned ↦
      let count : n + 1 ≡ suc n = omega arith in
      rw (aligned, count) (aligned-Copies (suc n) dst src mem (hd, hs, apart))
  | inr odd ↦
      let (mid, first, a) = movsb-Copies dst src mem (omega arith) (omega arith) in
      let safe : (dst + 1 ≤ src + 1) ⊎ (src + 1 + n ≤ dst + 1) = elim apart [
        | inl up ↦ inl (omega arith)
        | inr off ↦ inr (omega arith)
      ] in
      let (out, rest, b) =
        memcpy_top-Copies n (dst + 1) (src + 1) mid
          (omega (arith, a.size), omega (arith, a.size), safe) in
      let e : 1 + n ≡ suc n = omega arith in
      let apart' : (dst ≤ src) ⊎ (src + (1 + n) ≤ dst) = elim apart [
        | inl up ↦ inl up
        | inr off ↦ inr (omega arith)
      ] in
      (
        out,
        rw (odd, first) rest,
        subst (λ t. Copied t dst src mem out) e (Copied-above 1 n dst src mem mid out apart' a b),
      )
]

-- For two blocks inside memory where the destination is not above the start of the source or lies
-- behind its end, `memcpy`, with its bytes up to an aligned address, its words and the bytes left
-- over, stays inside the blocks, leaves in the destination what the source held before, and
-- changes no other byte.
pub memcpy-Copies :
    (mem : List ℕ) (dest src n : ℕ)
    → Fits n dest src mem
    → Copies n dest src mem (memcpy mem dest src n)
unfolding memcpy
memcpy-Copies mem dest src n fits = memcpy_top-Copies n dest src mem fits
