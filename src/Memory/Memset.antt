-- ===== src/Memory/Memset.antt =====
-- `memset` of student-distrib/lib.c: its bytes up to an aligned address, its words and the rest.
use apoll_os.Prelude.{
  ℕ, zero, suc, ◌+◌, ◌*◌, ◌/◌, ◌%◌, ◌≤◌, ◌<◌, ◌≡◌, refl, inl, inr, arith, true, ◌&&◌, List, ◌==◌,
  Bool-cases, length, set, store-set, store, ◌>>=◌, all_below, all_below_sound,
}
use mathlib.Core.Path.{subst}
use apoll_os.Memory.{memset_bottom, stosl, rep_stosl, memset_top, four_times, memset}
use apoll_os.Memory.Fill.{
  Filled, Fills, Filled-none, Filled-one, Filled-above, Fills-step, store-Fills,
  memset_bottom-Fills,
}

byte_table :
    all_below 256 (λ c.
      (four_times c % 256 == c)
      && ((four_times c / 256 % 256 == c)
          && ((four_times c / 65536 % 256 == c) && (four_times c / 16777216 % 256 == c))))
    ≡ true
unfolding all_below
byte_table = refl

-- The word holds the byte four times.
pub record IsFourTimes (c eax : ℕ) : Type 0 where
  pub byte0 : eax % 256 ≡ c
  pub byte1 : eax / 256 % 256 ≡ c
  pub byte2 : eax / 65536 % 256 ≡ c
  pub byte3 : eax / 16777216 % 256 ≡ c

four_times-IsFourTimes : (c : ℕ) → c < 256 → IsFourTimes c (four_times c)
four_times-IsFourTimes c h =
    let row = all_below_sound 256 _ c byte_table h in from_row c (four_times c) row
  where
    from_row :
        (c w : ℕ)
        → ((w % 256 == c)
            && ((w / 256 % 256 == c) && ((w / 65536 % 256 == c) && (w / 16777216 % 256 == c))))
          ≡ true
        → IsFourTimes c w
    from_row c w row = record {
      byte0 = ground arith;
      byte1 = ground arith;
      byte2 = ground arith;
      byte3 = ground arith;
    }

stosl-Fills :
    (c eax dst : ℕ) (mem : List ℕ)
    → IsFourTimes c eax
    → dst + 4 ≤ length mem
    → Fills c 4 dst mem (stosl dst eax mem)
unfolding stosl
stosl-Fills c eax dst mem w room =
    let m1 = set mem dst c in
    let m2 = set m1 (dst + 1) c in
    let m3 = set m2 (dst + 2) c in
    let m4 = set m3 (dst + 3) c in
    let f1 = Filled-one c dst mem (omega arith) in
    let g2 = Filled-one c (dst + 1) m1 (omega (arith, f1.size)) in
    let f2 : Filled c 2 dst mem m2 = Filled-above c 1 1 dst mem m1 m2 f1 g2 in
    let g3 = Filled-one c (dst + 2) m2 (omega (arith, f2.size)) in
    let f3 : Filled c 3 dst mem m3 = Filled-above c 2 1 dst mem m2 m3 f2 g3 in
    let g4 = Filled-one c (dst + 3) m3 (omega (arith, f3.size)) in
    (
      m4,
      rw (
        w.byte0,
        w.byte1,
        w.byte2,
        w.byte3,
        store-set mem dst c (omega arith),
        store-set m1 (dst + 1) c (omega (arith, f1.size)),
        store-set m2 (dst + 2) c (omega (arith, f2.size)),
        store-set m3 (dst + 3) c (omega (arith, f3.size)),
      ),
      Filled-above c 3 1 dst mem m3 m4 f3 g4,
    )

rep_stosl-Fills :
    (c eax n dst : ℕ) (mem : List ℕ)
    → IsFourTimes c eax
    → dst + 4 * n ≤ length mem
    → Fills c (4 * n) dst mem (rep_stosl n dst eax mem)
unfolding rep_stosl
rep_stosl-Fills c eax zero dst mem w room = (mem, refl, Filled-none c dst mem)
rep_stosl-Fills c eax (suc n) dst mem w room =
    let e : 4 + 4 * n ≡ 4 * suc n = omega arith in
    subst (λ t. Fills c t dst mem (stosl dst eax mem >>= rep_stosl n (dst + 4) eax)) e
      (Fills-step c 4 (4 * n) dst mem (stosl dst eax mem) (rep_stosl n (dst + 4) eax)
        (stosl-Fills c eax dst mem w (omega arith))
        (λ mid same. rep_stosl-Fills c eax n (dst + 4) mid w (omega (arith, same))))

-- The words from an aligned address on, and the bytes that are left over.
aligned-Fills :
    (c eax n dst : ℕ) (mem : List ℕ)
    → IsFourTimes c eax
    → dst + n ≤ length mem
    → Fills c n dst mem
        (rep_stosl (n / 4) dst eax mem >>= memset_bottom (n % 4) (dst + n / 4 * 4) c)
aligned-Fills c eax n dst mem w room =
    let q = n / 4 in
    let e : 4 * q ≡ q * 4 = omega arith in
    let all : 4 * q + n % 4 ≡ n = omega arith in
    subst
      (λ t. Fills c t dst mem (rep_stosl q dst eax mem >>= memset_bottom (n % 4) (dst + q * 4) c))
      all
      (Fills-step c (4 * q) (n % 4) dst mem (rep_stosl q dst eax mem)
        (memset_bottom (n % 4) (dst + q * 4) c) (rep_stosl-Fills c eax q dst mem w (omega arith))
        (λ mid same.
          subst (λ t. Fills c (n % 4) (dst + 4 * q) mid (memset_bottom (n % 4) (dst + t) c mid)) e
            (memset_bottom-Fills (n % 4) c (dst + 4 * q) mid (omega (arith, same)))))

memset_top-Fills :
    (c eax n dst : ℕ) (mem : List ℕ)
    → IsFourTimes c eax
    → dst + n ≤ length mem
    → Fills c n dst mem (memset_top n dst eax mem)
unfolding memset_top
memset_top-Fills c eax zero dst mem w room = (mem, refl, Filled-none c dst mem)
memset_top-Fills c eax (suc n) dst mem w room = elim (Bool-cases (dst % 4 == 0)) [
  | inl aligned ↦
      let count : n + 1 ≡ suc n = omega arith in
      rw (aligned, w.byte0, count) (aligned-Fills c eax (suc n) dst mem w room)
  | inr odd ↦
      let e : 1 + n ≡ suc n = omega arith in
      rw (odd, w.byte0)
        (subst (λ t. Fills c t dst mem (store mem dst c >>= memset_top n (dst + 1) eax)) e
          (Fills-step c 1 n dst mem (store mem dst c) (memset_top n (dst + 1) eax)
            (store-Fills c dst mem (omega arith))
            (λ mid same. memset_top-Fills c eax n (dst + 1) mid w (omega (arith, same)))))
]

-- For a block inside memory `memset`, with its bytes up to an aligned address, its words and the
-- bytes left over, stays inside the block, leaves the value modulo 256 in each of its bytes, and
-- changes no other byte.
pub memset-Fills :
    (mem : List ℕ) (s c n : ℕ) → s + n ≤ length mem → Fills (c % 256) n s mem (memset mem s c n)
unfolding memset
memset-Fills mem s c n room =
    memset_top-Fills (c % 256) (four_times (c % 256)) n s mem
      (four_times-IsFourTimes (c % 256) (omega arith)) room
