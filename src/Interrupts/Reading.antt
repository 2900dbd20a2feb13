-- ===== src/Interrupts/Reading.antt =====
-- `terminal_read` of student-distrib/terminal.c with the keys that are typed while it waits.
use apoll_os.Prelude.{
  ℕ, suc, ◌+◌, ◌-◌, ◌^◌, ◌≤◌, ◌<◌, min, ◌≡◌, refl, sym, ap, ◌∙◌, ◌≢◌, arith, true, Option, some,
  List, [], ◌∷◌, ◌++◌, ◌==◌, length, take, drop, replicate, All, length-append, lt_of_get_elem?,
  get_elem?-set_self,
}
use mathlib.Core.List.{append-nil, append_assoc}
use mathlib.Core.Path.{subst}
use apoll_os.Screen.Bounds.{do_enter-Keeps}
use apoll_os.Kernel.{Kernel, Keyboard}
use apoll_os.Pic.{send_eoi}
use apoll_os.Keyboard.{handle_enter, set_keyboard}
use apoll_os.Keyboard.Editing.{IsActive, with_keys}
use apoll_os.Keyboard.Typing.{Holds}
use apoll_os.Tty.{Reply, returns}
use apoll_os.Tty.ReadLine.{terminal_read_lem}
use apoll_os.Interrupts.{key_of, modifier, handle_key, keyboard_handler}
use apoll_os.Interrupts.Waiting.{
  wait_read, after_key, is_typing, key_text, typed, typed-moved, modifier-Steady,
}
use apoll_os.Interrupts.Pressing.{keyboard_handler-Types}

-- The read returns as much of the text as was asked for, and leaves an empty line.
abbrev pub Reads : Option Reply → ℕ → ℕ → List ℕ → List ℕ → Type 0
Reads o n nbytes buf text =
    let m = min nbytes (length text) in
    (k' : Kernel) × (o ≡ some (returns m k' (take m text ++ drop m buf))) × Holds k' n []

enter-Reads :
    (fd : ℕ) (buf : List ℕ) (nbytes : ℕ) (k : Kernel) (n : ℕ) (line : List ℕ)
    → Holds k n line
    → k.keyboard.enter_pressed ≡ 0
    → length line < 128
    → nbytes < 2 ^ 31
    → min nbytes (length line) ≤ length buf
    → Reads (wait_read (0x1c ∷ []) fd buf nbytes k) n nbytes buf line
unfolding wait_read keyboard_handler handle_key handle_enter key_of
enter-Reads fd buf nbytes k n line h not_yet short small room =
    let (s', entered_line, on) = do_enter-Keeps k.screen h.shown.page h.shown.line in
    let k1 = record k {
      interrupts = true;
      pic = send_eoi 1 k.pic;
      keyboard = record k.keyboard { enter_pressed = 1; right_bound = 7 };
      screen = s';
    } in
    let zeros : 128 - length line ≡ suc (127 - length line) = omega arith in
    let keys : h.term.key_buffer ≡ line ++ (0 ∷ replicate (127 - length line) 0) =
      h.keys ∙ ap (λ m. line ++ replicate m 0) zeros in
    let active : IsActive k1 n h.term = record {
      pointer = h.active.pointer;
      entry = h.active.entry;
      size = h.active.size;
    } in
    let waiting : (k.keyboard.enter_pressed == 0) ≡ true = ground (arith, not_yet) in
    let run =
      terminal_read_lem fd buf nbytes k1 n h.term line (replicate (127 - length line) 0) active keys
        h.text small room in
    let cleared_term = record h.term { key_buffer = replicate 128 0 } in
    let k2 =
      set_keyboard (λ kb. record kb { enter_pressed = 0; key_buffer_pos = 0; right_bound = 7 })
        (with_keys k1 n h.term (replicate 128 0)) in
    (
      k2,
      rw (waiting, entered_line, run),
      record {
        term = cleared_term;
        active = record {
          pointer = h.active.pointer;
          entry =
              get_elem?-set_self k.terminal n cleared_term
                (lt_of_get_elem? k.terminal n h.term h.active.entry);
          size = refl;
        };
        keys = refl;
        pos = refl;
        short = omega arith;
        text = tt;
        shown = on;
      },
    )

-- With a line in the active terminal, ctrl not held and enter not pressed, while `terminal_read`
-- waits: if the keys that come are shift, capslock and other keys that type characters, in any
-- order, such that the line stays below 128 characters, and then enter, the read returns with as
-- much of the line and the text that they type, under the shift and capslock of each moment, as it
-- was asked for, and leaves an empty line; the count is below 2 ^ 31 and the buffer has room for
-- what is read.
pub wait_read-typed :
    (codes : List ℕ) (fd : ℕ) (buf : List ℕ) (nbytes : ℕ) (k : Kernel) (n : ℕ) (line : List ℕ)
    → All (λ code. is_typing (key_of code) ≡ true) codes
    → Holds k n line
    → k.keyboard.ctrl_pressed ≢ 1
    → k.keyboard.keys_state < 4
    → k.keyboard.enter_pressed ≡ 0
    → length (line ++ typed codes k.keyboard) < 128
    → nbytes < 2 ^ 31
    → min nbytes (length (line ++ typed codes k.keyboard)) ≤ length buf
    → Reads
        (wait_read (codes ++ (0x1c ∷ [])) fd buf nbytes k)
        n
        nbytes
        buf
        (line ++ typed codes k.keyboard)
unfolding wait_read after_key
wait_read-typed [] fd buf nbytes k n line keys h plain col not_yet short small room =
    let e : line ++ [] ≡ line = append-nil line in
    subst (Reads (wait_read (0x1c ∷ []) fd buf nbytes k) n nbytes buf) (sym e) (
      enter-Reads fd buf nbytes k n line h not_yet (omega (arith, ap length e)) small
        (subst (λ t. min nbytes (length t) ≤ length buf) e room))
wait_read-typed (code ∷ codes) fd buf nbytes k n line keys h plain col not_yet short small room =
    let key = key_of code in
    let kb = k.keyboard in
    let added = key_text key code kb in
    let rest = typed codes (modifier key kb) in
    let len : length (line ++ (added ++ rest)) ≡ length line + (length added + length rest) =
      omega (arith, length-append line (added ++ rest), length-append added rest) in
    let (k', run, t) =
      keyboard_handler-Types k n line code keys.0 h plain col (omega (arith, len)) in
    let steady = modifier-Steady key kb keys.0 in
    let ctrl : k'.keyboard.ctrl_pressed ≡ kb.ctrl_pressed =
      ap (λ (b : Keyboard). b.ctrl_pressed) t.keyboard ∙ steady.ctrl in
    let flag : k'.keyboard.enter_pressed ≡ 0 =
      ap (λ (b : Keyboard). b.enter_pressed) t.keyboard ∙ steady.enter_flag ∙ not_yet in
    let column : k'.keyboard.keys_state < 4 =
      subst (λ s. s < 4) (sym (ap (λ (b : Keyboard). b.keys_state) t.keyboard))
        (steady.column col) in
    let same_rest : typed codes k'.keyboard ≡ rest =
      ap (typed codes) t.keyboard ∙ typed-moved codes t.pos t.bound (modifier key kb) in
    let whole : (line ++ added) ++ typed codes k'.keyboard ≡ line ++ (added ++ rest) =
      ap (λ r. (line ++ added) ++ r) same_rest ∙ append_assoc line added rest in
    let ih =
      wait_read-typed codes fd buf nbytes k' n (line ++ added) keys.1 t.holds
        (λ e. plain (sym ctrl ∙ e)) column flag (subst (λ s. length s < 128) (sym whole) short)
        small (subst (λ s. min nbytes (length s) ≤ length buf) (sym whole) room) in
    let waiting : (kb.enter_pressed == 0) ≡ true = ground (arith, not_yet) in
    rw (waiting, run)
      (subst (Reads (wait_read (codes ++ (0x1c ∷ [])) fd buf nbytes k') n nbytes buf) whole ih)
