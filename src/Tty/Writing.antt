-- ===== src/Tty/Writing.antt =====
-- What `terminal_write` of student-distrib/terminal.c shows: the text of the buffer.
use apoll_os.Prelude.{
  ℕ, zero, suc, ◌+◌, ◌^◌, ◌<◌, ◌≡◌, refl, sym, ap, ◌∙◌, inl, inr, arith, true, false, Option, none,
  some, List, [], ◌∷◌, ◌++◌, ◌==◌, ◌!=◌, Bool-cases, Option-cases, length, ◌>>=◌, neg32,
}
use apoll_os.CString.Compare.{text, Readable}
use apoll_os.Screen.{Screen, putc}
use apoll_os.Screen.Bounds.{IsOnScreen, putc-Keeps}
use apoll_os.Kernel.{Kernel}
use apoll_os.Tty.{write_loop, terminal_write}

-- The screen after the characters have been put one after the other.
abbrev pub put_all : List ℕ → Screen → Option Screen
put_all [] s = some s
put_all (c ∷ cs) s = putc c s >>= put_all cs

put_all-none :
    (f : Screen → Option Screen) (o : Option Screen) (t : Screen)
    → o ≡ none
    → (o >>= f) ≡ some t
    → ⊥
put_all-none f none t e h = cc
put_all-none f (some a) t e h = cc

pub put_all-append :
    (xs ys : List ℕ) (s t : Screen) → put_all xs s ≡ some t → put_all (xs ++ ys) s ≡ put_all ys t
put_all-append [] ys s t h = let same : s ≡ t = cc in ap (put_all ys) same
put_all-append (x ∷ xs) ys s t h = elim (Option-cases (putc x s)) [
  | inl fault ↦ absurd (put_all-none (put_all xs) (putc x s) t fault h)
  | inr (s1, put) ↦
      let rest : put_all xs s1 ≡ some t = sym (ap (λ o. o >>= put_all xs) put) ∙ h in
      rw put (put_all-append xs ys s1 t rest)
]

-- The buffer's text, up to `n` bytes, is put on the screen, and nothing else changes.
record Written (n : ℕ) (buf : List ℕ) (written : ℕ) (k : Kernel) : Type 0 where
  after : Screen
  result :
      write_loop n buf written k ≡ some (written + length (text n buf), record k { screen = after })
  shown : put_all (text n buf) k.screen ≡ some after
  inside : IsOnScreen after

zero_test : (c : ℕ) → c ≡ 0 → (c == 0) ≡ false → ⊥
zero_test c e h = ground arith

write_loop-Written :
    (n : ℕ) (buf : List ℕ) (written : ℕ) (k : Kernel)
    → Readable n buf
    → IsOnScreen k.screen
    → Written n buf written k
unfolding write_loop
write_loop-Written zero buf written k r on =
    let none_more : written + 0 ≡ written = omega arith in
    record { after = k.screen; result = rw none_more; shown = refl; inside = on }
write_loop-Written (suc n) [] written k r on = elim r [ ]
write_loop-Written (suc n) (c ∷ buf) written k r on = elim (Bool-cases (c == 0)) [
  | inl nul ↦
      let stop : (c != 0) ≡ false = ground arith in
      let none_more : written + 0 ≡ written = omega arith in
      record { after = k.screen; result = rw (stop, nul, none_more); shown = rw nul; inside = on }
  | inr more ↦
      let go : (c != 0) ≡ true = ground arith in
      let left : Readable n buf = elim r [ inl e ↦ absurd (zero_test c e more) | inr h ↦ h ] in
      let (s1, put, on1) = putc-Keeps c k.screen on in
      let count : written + 1 + length (text n buf) ≡ written + suc (length (text n buf)) =
        omega arith in
      let w = write_loop-Written n buf (written + 1) (record k { screen = s1 }) left on1 in
      record {
        after = w.after;
        result = rw (go, more, put, w.result, count);
        shown = rw (more, put) w.shown;
        inside = w.inside;
      }
]

-- With the cursor on the screen, a count below 2 ^ 31 and a buffer that can be read for the count
-- or to its NUL, `terminal_write` returns the length of the text before the first NUL, up to the
-- count, and the screen is what putting its characters one after the other makes of it, with the
-- cursor on the screen.
pub terminal_write_lem :
    (fd : ℕ) (buf : List ℕ) (nbytes : ℕ) (k : Kernel)
    → Readable nbytes buf
    → nbytes < 2 ^ 31
    → IsOnScreen k.screen
    → (s' : Screen) × (terminal_write fd buf nbytes k
        ≡ some (length (text nbytes buf), record k { screen = s' }))
      × (put_all (text nbytes buf) k.screen ≡ some s')
      × IsOnScreen s'
unfolding terminal_write
terminal_write_lem fd buf nbytes k r small on =
    let w = write_loop-Written nbytes buf 0 k r on in
    let positive : neg32 nbytes ≡ false = ground arith in
    let count : 0 + length (text nbytes buf) ≡ length (text nbytes buf) = omega arith in
    (w.after, rw (positive, w.result, count), w.shown, w.inside)
