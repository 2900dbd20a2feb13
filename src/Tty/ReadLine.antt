-- ===== src/Tty/ReadLine.antt =====
-- What `terminal_read` of student-distrib/terminal.c returns: the line that was typed.
use apoll_os.Prelude.{
  ℕ, zero, suc, ◌+◌, ◌^◌, ◌≤◌, ◌<◌, min, ◌≡◌, refl, ◌≢◌, inl, inr, arith, false, none, some, List,
  [], ◌∷◌, ◌++◌, ◌==◌, if◌then◌else◌, Bool-cases, length, take, drop, replicate, neg32,
}
use apoll_os.CString.Compare.{NoNul}
use apoll_os.Kernel.{Kernel, Terminal}
use apoll_os.Keyboard.{set_keyboard}
use apoll_os.Keyboard.Editing.{IsActive, with_keys, clear_buffer_lem}
use apoll_os.Tty.{waits, returns, copy_line, terminal_read}

copy_line_lem :
    (n : ℕ) (line rest buf : List ℕ)
    → NoNul line
    → min n (length line) ≤ length buf
    → copy_line n (line ++ (0 ∷ rest)) buf
      ≡ some
          (min n (length line), take (min n (length line)) line ++ drop (min n (length line)) buf)
unfolding copy_line
copy_line_lem zero [] rest buf h room = let e : min 0 0 ≡ 0 = omega arith in refl
copy_line_lem zero (c ∷ line) rest buf h room =
    let e : min 0 (suc (length line)) ≡ 0 = omega arith in rw e
copy_line_lem (suc n) [] rest [] h room = let e : min (suc n) 0 ≡ 0 = omega arith in rw e
copy_line_lem (suc n) [] rest (d ∷ buf) h room = let e : min (suc n) 0 ≡ 0 = omega arith in rw e
copy_line_lem (suc n) (c ∷ line) rest [] h room = absurd (omega arith)
copy_line_lem (suc n) (c ∷ line) rest (d ∷ buf) h room =
    let more : (c == 0) ≡ false = ground (arith, h.0) in
    let e : min (suc n) (suc (length line)) ≡ suc (min n (length line)) = omega arith in
    let up : min n (length line) + 1 ≡ suc (min n (length line)) = omega arith in
    rw (more, copy_line_lem n line rest buf h.1 (omega arith), e, up)

-- With a line and a NUL behind it in the active terminal's key buffer, a count below 2 ^ 31 and a
-- buffer with room for what is copied, `terminal_read` waits while enter has not been pressed;
-- after that it returns as many bytes of the line as were asked for or as it has, leaves the rest
-- of the buffer alone, empties the line, and takes the enter as handled.
pub terminal_read_lem :
    (fd : ℕ) (buf : List ℕ) (nbytes : ℕ) (k : Kernel) (n : ℕ) (t : Terminal) (line rest : List ℕ)
    → IsActive k n t
    → t.key_buffer ≡ line ++ (0 ∷ rest)
    → NoNul line
    → nbytes < 2 ^ 31
    → min nbytes (length line) ≤ length buf
    → let m = min nbytes (length line) in
      terminal_read fd buf nbytes k
      ≡ some (
          if k.keyboard.enter_pressed == 0
          then waits
          else returns m
              (set_keyboard
                (λ kb. record kb { enter_pressed = 0; key_buffer_pos = 0; right_bound = 7 })
                (with_keys k n t (replicate 128 0)))
              (take m line ++ drop m buf))
unfolding terminal_read
terminal_read_lem fd buf nbytes k n t line rest a keys text small room =
    elim (Bool-cases (k.keyboard.enter_pressed == 0)) [
      | inl not_yet ↦ rw not_yet
      | inr pressed ↦
          let k' = set_keyboard (λ kb. record kb { enter_pressed = 0 }) k in
          let a' : IsActive k' n t = record {
            pointer = a.pointer;
            entry = a.entry;
            size = a.size;
          } in
          let positive : neg32 nbytes ≡ false = ground arith in
          rw (
            pressed,
            clear_buffer_lem k' n t a',
            a.pointer,
            a.entry,
            positive,
            keys,
            copy_line_lem nbytes line rest buf text room,
          )
    ]

-- The copy runs off a buffer that is full to the last byte.
copy_line-full :
    (n : ℕ) (line buf : List ℕ)
    → NoNul line
    → length line ≤ n
    → length line ≤ length buf
    → copy_line n line buf ≡ none
unfolding copy_line
copy_line-full n [] buf h l b = refl
copy_line-full zero (c ∷ line) buf h l b = absurd (omega arith)
copy_line-full (suc n) (c ∷ line) [] h l b = absurd (omega arith)
copy_line-full (suc n) (c ∷ line) (d ∷ buf) h l b =
    let more : (c == 0) ≡ false = ground (arith, h.0) in
    rw (more, copy_line-full n line buf h.1 (omega arith) (omega arith))

-- With 128 characters and no NUL in the active terminal's key buffer and enter pressed, a read of
-- 128 bytes or more, and less than 2 ^ 31, into a buffer of 128 bytes or more goes past the end of
-- the key buffer.
pub terminal_read-full :
    (fd : ℕ) (buf : List ℕ) (nbytes : ℕ) (k : Kernel) (n : ℕ) (t : Terminal)
    → IsActive k n t
    → k.keyboard.enter_pressed ≢ 0
    → NoNul t.key_buffer
    → 128 ≤ nbytes
    → nbytes < 2 ^ 31
    → 128 ≤ length buf
    → terminal_read fd buf nbytes k ≡ none
unfolding terminal_read
terminal_read-full fd buf nbytes k n t a enter text lo small room =
    let pressed : (k.keyboard.enter_pressed == 0) ≡ false = ground arith in
    let positive : neg32 nbytes ≡ false = ground arith in
    rw (
      pressed,
      a.pointer,
      a.entry,
      positive,
      copy_line-full nbytes t.key_buffer buf text (omega (arith, a.size)) (omega (arith, a.size)),
    )
