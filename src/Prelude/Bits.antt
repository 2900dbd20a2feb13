-- ===== src/Prelude/Bits.antt =====
-- `|` of a number and a field below it, as a sum, at every width.
use Prim.Native.Nat.{ℕ, zero, suc, ◌+◌, ◌*◌, ◌/◌, ◌^◌, ◌≤◌, ◌<◌, min, bit_or, bit_and}
use mathlib.Core.Path.{◌≡◌, refl, ap, ◌∙◌}
use native.Mathlib.Omega.{arith}
use Prim.Native.Nat.{max, digits, bit_or-bitwise, bit_and-bitwise}
use native.Mathlib.Nat.{pow-suc, mul-le-mul_right}

-- Digit by digit, a number `field` below `2 ^ k` meets only zeros of a multiple of `2 ^ k`.
meets_zeros :
    (rounds whole k q field : ℕ)
    → whole ≤ rounds
    → whole ≡ q * 2 ^ k
    → field < 2 ^ k
    → digits (λ c. c) max rounds whole field ≡ whole + field
meets_zeros zero whole k q field few multiple below = omega arith
meets_zeros (suc rounds) zero k q field few multiple below = omega arith
meets_zeros (suc rounds) (suc w) zero q field few multiple below =
    let half : ℕ = suc w / 2 in
    omega (
      arith,
      meets_zeros rounds half zero half (field / 2) (omega arith) (omega arith) (omega arith),
    )
meets_zeros (suc rounds) (suc w) (suc k) q field few multiple below =
    let split : q * 2 ^ suc k ≡ 2 * (q * 2 ^ k) =
      omega (arith, ap (λ (t : ℕ). q * t) (pow-suc 2 k)) in
    let width = pow-suc 2 k in
    omega (
      arith,
      meets_zeros rounds (suc w / 2) k q (field / 2) (omega arith) (omega arith) (omega arith),
    )

-- A field of `k` bits that is put in below a multiple of `2 ^ k` is added.
pub bit_or-low : (k q r : ℕ) → r < 2 ^ k → bit_or (q * 2 ^ k) r ≡ q * 2 ^ k + r
bit_or-low k q r h =
    bit_or-bitwise (q * 2 ^ k) r
    ∙ meets_zeros (q * 2 ^ k) (q * 2 ^ k) k q r (omega arith) (omega arith) h

-- Digit by digit, a number and `n` ones.
meets_ones :
    (rounds a n h f b : ℕ)
    → a ≤ rounds
    → a ≡ h * 2 ^ n + f
    → f < 2 ^ n
    → b + 1 ≡ 2 ^ n
    → digits (λ c. zero) min rounds a b ≡ f
meets_ones zero a n h f b few e below ones = omega arith
meets_ones (suc rounds) zero n h f b few e below ones = omega arith
meets_ones (suc rounds) (suc w) zero h f b few e below ones =
    let half : ℕ = suc w / 2 in
    omega (
      arith,
      meets_ones rounds half zero half 0 (b / 2) (omega arith) (omega arith) (omega arith)
          (omega arith),
    )
meets_ones (suc rounds) (suc w) (suc n) h f b few e below ones =
    let split : h * 2 ^ suc n ≡ 2 * (h * 2 ^ n) =
      omega (arith, ap (λ (t : ℕ). h * t) (pow-suc 2 n)) in
    let width = pow-suc 2 n in
    omega (
      arith,
      meets_ones rounds (suc w / 2) n h (f / 2) (b / 2) (omega arith) (omega arith) (omega arith)
          (omega arith),
    )

-- The same with the ones `j` digits up.
meets_field :
    (rounds a j n h f r m b : ℕ)
    → a ≤ rounds
    → a ≡ (h * 2 ^ n + f) * 2 ^ j + r
    → r < 2 ^ j
    → f < 2 ^ n
    → m + 1 ≡ 2 ^ n
    → b ≡ m * 2 ^ j
    → digits (λ c. zero) min rounds a b ≡ f * 2 ^ j
meets_field zero a j n h f r m b few e below small ones mask =
    let part : f ≤ h * 2 ^ n + f = omega arith in omega (arith, mul-le-mul_right (2 ^ j) part)
meets_field (suc rounds) zero j n h f r m b few e below small ones mask =
    let part : f ≤ h * 2 ^ n + f = omega arith in omega (arith, mul-le-mul_right (2 ^ j) part)
meets_field (suc rounds) (suc w) zero n h f r m b few e below small ones mask =
    omega (arith, meets_ones (suc rounds) (suc w) n h f b few (omega arith) small (omega arith))
meets_field (suc rounds) (suc w) (suc j) n h f r m b few e below small ones mask =
    let u : ℕ = h * 2 ^ n + f in
    let split : u * 2 ^ suc j ≡ 2 * (u * 2 ^ j) =
      omega (arith, ap (λ (t : ℕ). u * t) (pow-suc 2 j)) in
    let split_mask : m * 2 ^ suc j ≡ 2 * (m * 2 ^ j) =
      omega (arith, ap (λ (t : ℕ). m * t) (pow-suc 2 j)) in
    let split_field : f * 2 ^ suc j ≡ 2 * (f * 2 ^ j) =
      omega (arith, ap (λ (t : ℕ). f * t) (pow-suc 2 j)) in
    let width = pow-suc 2 j in
    omega (
      arith,
      meets_field rounds (suc w / 2) j n h f (r / 2) m (b / 2) (omega arith) (omega (arith, split))
          (omega arith) small ones (omega (arith, split_mask)),
    )

-- A mask of `n` ones, `j` digits up, keeps the field that stands there.
pub bit_and-field :
    (a j n h f r m : ℕ)
    → a ≡ (h * 2 ^ n + f) * 2 ^ j + r
    → r < 2 ^ j
    → f < 2 ^ n
    → m + 1 ≡ 2 ^ n
    → bit_and a (m * 2 ^ j) ≡ f * 2 ^ j
bit_and-field a j n h f r m e below small ones =
    bit_and-bitwise a (m * 2 ^ j)
    ∙ meets_field a a j n h f r m (m * 2 ^ j) (omega arith) e below small ones refl
