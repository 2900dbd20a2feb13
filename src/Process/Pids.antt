-- ===== src/Process/Pids.antt =====
-- Which pid `get_new_pid` of student-distrib/syscalls.c hands out.
use apoll_os.Prelude.{
  ℕ, ◌%◌, ◌<◌, ◌≡◌, refl, ◌⊎◌, inl, inr, arith, Bool, true, false, not, ◌&&◌, ◌||◌, ltb, ◌==◌,
  if◌then◌else◌, Bool-cases, set, minus_one, all_below, all_below_sound,
}
use apoll_os.Process.{get_new_pid, flag_set}

abbrev same : Bool → Bool → Bool
same true b = b
same false b = not b

same-eq : (a b : Bool) → same a b ≡ true → a ≡ b
same-eq a b h = ground arith

-- All six pids are taken.
abbrev pub AllTaken : ℕ → Type 0
AllTaken flags = flags % 64 ≡ 63

abbrev new_pid : ℕ → ℕ
new_pid flags = (get_new_pid flags).0

abbrev new_flags : ℕ → ℕ
new_flags flags = (get_new_pid flags).1

row : ℕ → Bool
row f =
    if f % 64 == 63
    then new_pid f == minus_one && new_flags f == f
    else ltb (new_pid f) 6
      && (not (flag_set f (new_pid f))
          && (all_below (new_pid f) (flag_set f)
              && all_below 8
                  (λ j. same (flag_set (new_flags f) j) (j == new_pid f || flag_set f j))))

pid_table : all_below 256 row ≡ true
unfolding all_below row get_new_pid
pid_table = refl

-- A pid that is handed out was free, is the lowest that was, and is the only one that is taken in
-- addition.
pub record IsFresh (flags pid flags' : ℕ) : Type 0 where
  pub in_range : pid < 6
  pub was_free : flag_set flags pid ≡ false
  pub lowest : (j : ℕ) → j < pid → flag_set flags j ≡ true
  pub taken : (j : ℕ) → j < 8 → flag_set flags' j ≡ (j == pid || flag_set flags j)

and-parts : (a b : Bool) → a && b ≡ true → (a ≡ true) × (b ≡ true)
and-parts a b h = ground arith

IsFresh-row : (f : ℕ) → row f ≡ true → (f % 64 == 63) ≡ false → IsFresh f (new_pid f) (new_flags f)
unfolding row
IsFresh-row f h free =
    let (range, h1) = and-parts _ _ (rw free at h) in
    let (clear, h2) = and-parts _ _ h1 in
    let (low, set) = and-parts _ _ h2 in
    record {
      in_range = ground arith;
      was_free = ground arith;
      lowest = λ j lt. all_below_sound (new_pid f) (flag_set f) j low lt;
      taken = λ j lt. same-eq _ _ (all_below_sound 8 _ j set lt);
    }

-- For every byte of flags, `get_new_pid` fails and changes nothing if all six pids are taken; if
-- not, it hands out the lowest free pid and marks that one alone.
pub get_new_pid_lem :
    (flags : ℕ)
    → flags < 256
    → (AllTaken flags × (get_new_pid flags ≡ (minus_one, flags)))
      ⊎ (¬ AllTaken flags × IsFresh flags (get_new_pid flags).0 (get_new_pid flags).1)
get_new_pid_lem flags h =
    let r = all_below_sound 256 row flags pid_table h in
    elim (Bool-cases (flags % 64 == 63)) [
      | inl full ↦ inl (ground arith, AllTaken-row flags r full)
      | inr free ↦ inr (ground arith, IsFresh-row flags r free)
    ]
  where
    AllTaken-row : (f : ℕ) → row f ≡ true → (f % 64 == 63) ≡ true → get_new_pid f ≡ (minus_one, f)
    AllTaken-row f r full = unfold row in ground arith
