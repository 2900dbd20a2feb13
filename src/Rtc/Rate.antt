-- ===== src/Rtc/Rate.antt =====
-- The rate that `rtc_write` of student-distrib/rtc.c sets for a frequency.
use apoll_os.Prelude.{
  ℕ, zero, suc, ◌+◌, ◌-◌, ◌*◌, ◌/◌, ◌%◌, ◌^◌, ◌≤◌, ◌<◌, bit_and, bit_or, ◌≡◌, refl, ◌∙◌, arith,
  true, false, some, List, ◌==◌, ==_iff, u8, slt, all_below, all_below_sound,
}
use native.Mathlib.Nat.{pow-suc, one-le-pow}
use apoll_os.Rtc.{Rtc, rate_loop, rate_of, rtc_write, word_of, select_write, rtc_reg_a}

rate_loop_lem :
    (k fuel freq rate : ℕ)
    → k ≤ fuel
    → 2 ^ k ≤ freq
    → freq < 2 * 2 ^ k
    → freq < 2 ^ 31
    → rate < 256
    → rate_loop fuel freq rate ≡ (rate + 256 - k % 256) % 256
unfolding rate_loop
rate_loop_lem zero zero freq rate h lo hi w b = omega arith
rate_loop_lem zero (suc fuel) freq rate h lo hi w b =
    let stop : slt 1 freq ≡ false = ground arith in rw stop (omega arith)
rate_loop_lem (suc k) zero freq rate h lo hi w b = absurd (omega arith)
rate_loop_lem (suc k) (suc fuel) freq rate h lo hi w b =
    let p = pow-suc 2 k in
    let big : 2 ≤ freq = omega (arith, one-le-pow k 2) in
    let go : slt 1 freq ≡ true = ground arith in
    let ih =
      rate_loop_lem k fuel (freq / 2) ((rate + 256 - 1) % 256) (omega arith) (omega arith)
        (omega arith) (omega arith) (omega arith) in
    rw (go, ih) (omega arith)

rate_of_lem :
    (k freq : ℕ)
    → k ≤ 30
    → 2 ^ k ≤ freq
    → freq < 2 * 2 ^ k
    → freq < 2 ^ 31
    → rate_of freq ≡ (272 - k) % 256
unfolding rate_of
rate_of_lem k freq h lo hi w =
    let some_rate : (freq == 0) ≡ false = ground (arith, one-le-pow k 2) in
    let small : k % 256 ≡ k = omega arith in
    let e : (16 + 256 - k % 256) % 256 ≡ (272 - k) % 256 = omega arith in
    rw some_rate (rate_loop_lem k 32 freq 16 (omega arith) lo hi w (omega arith) ∙ e)

-- The byte that is written to register A.
abbrev reg_byte : ℕ → ℕ → ℕ
reg_byte prev rate = u8 (bit_or (bit_and prev 0xf0) rate)

low_table : all_below 256 (λ prev. all_below 16 (λ r. reg_byte prev r == prev / 16 * 16 + r)) ≡ true
unfolding all_below
low_table = refl

high_table : all_below 256 (λ prev. all_below 14 (λ r. reg_byte prev (242 + r) / 16 == 15)) ≡ true
unfolding all_below
high_table = refl

odd_table : all_below 256 (λ prev. reg_byte prev 16 % 32 == 16) ≡ true
unfolding all_below
odd_table = refl

-- For a buffer that holds a frequency from 2 ^ k up to 2 ^ (k + 1), k from 1 to 15, `rtc_write`
-- ends, returns 0, and writes one byte to register A: the rate 16 - k in the low four bits, and
-- the upper four as the device had them.
pub rtc_write_lem :
    (prev k freq : ℕ) (r : Rtc) (buf : List ℕ)
    → prev < 256
    → 1 ≤ k
    → k ≤ 15
    → 2 ^ k ≤ freq
    → freq < 2 * 2 ^ k
    → freq < 2 ^ 31
    → word_of buf ≡ some freq
    → (byte : ℕ) × (rtc_write prev (some buf) 4 r ≡ some (0, select_write rtc_reg_a byte r))
      × (byte ≡ prev / 16 * 16 + (16 - k))
unfolding rtc_write
rtc_write_lem prev k freq r buf hp h1 hk lo hi w at =
    let e : (272 - k) % 256 ≡ 16 - k = omega arith in
    let table = all_below_sound 256 _ prev low_table hp in
    let byte = (==_iff _ _).0 (all_below_sound 16 _ (16 - k) table (omega arith)) in
    (prev / 16 * 16 + (16 - k), rw (at, rate_of_lem k freq (omega arith) lo hi w, e, byte), refl)

-- For a buffer that holds a frequency from 2 ^ 17 up to 2 ^ 31, `rtc_write` returns 0 and writes a
-- byte to register A that has all the upper four bits set, whatever the device had there.
pub rtc_write-large :
    (prev k freq : ℕ) (r : Rtc) (buf : List ℕ)
    → prev < 256
    → 17 ≤ k
    → k ≤ 30
    → 2 ^ k ≤ freq
    → freq < 2 * 2 ^ k
    → freq < 2 ^ 31
    → word_of buf ≡ some freq
    → (byte : ℕ) × (rtc_write prev (some buf) 4 r ≡ some (0, select_write rtc_reg_a byte r))
      × (byte / 16 ≡ 15)
unfolding rtc_write
rtc_write-large prev k freq r buf hp h1 hk lo hi w at =
    let e : (272 - k) % 256 ≡ 242 + (30 - k) = omega arith in
    let table = all_below_sound 256 _ prev high_table hp in
    let byte = (==_iff _ _).0 (all_below_sound 14 _ (30 - k) table (omega arith)) in
    (reg_byte prev (242 + (30 - k)), rw (at, rate_of_lem k freq (omega arith) lo hi w, e), byte)
