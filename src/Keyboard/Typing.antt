-- ===== src/Keyboard/Typing.antt =====
-- What keys make of the line in student-distrib/keyboard.c: a character is appended and shown, and
-- a backspace takes the last one away.
use apoll_os.Prelude.{
  ℕ, suc, ◌+◌, ◌-◌, ◌≤◌, ◌<◌, ◌≡◌, refl, sym, ap, ◌∙◌, ◌≢◌, arith, true, false, some, List, [], ◌∷◌,
  ◌++◌, ltb, leb, ◌==◌, length, set, replicate, set-append, length-append, length-set, u32,
}
use apoll_os.CString.Compare.{NoNul}
use apoll_os.Screen.{putc}
use apoll_os.Screen.Bounds.{IsOnScreen, putc-Keeps}
use apoll_os.Kernel.{Kernel, Terminal}
use apoll_os.Keyboard.{key_pressed_handler, key_char}
use apoll_os.Keyboard.Editing.{IsActive, with_keys, set_key_lem, IsActive-with_keys}

-- The active terminal `n` holds the line that has been typed, and nothing behind it.
pub record Holds (k : Kernel) (n : ℕ) (line : List ℕ) : Type 0 where
  pub term : Terminal
  pub active : IsActive k n term
  pub keys : term.key_buffer ≡ line ++ replicate (128 - length line) 0
  pub pos : k.keyboard.key_buffer_pos ≡ length line
  pub short : length line ≤ 128
  pub text : NoNul line
  pub shown : IsOnScreen k.screen

NoNul-snoc : (line : List ℕ) (c : ℕ) → NoNul line → c ≢ 0 → NoNul (line ++ (c ∷ []))
NoNul-snoc [] c h ne = (ne, tt)
NoNul-snoc (d ∷ line) c h ne = (h.0, NoNul-snoc line c h.1 ne)

append_key :
    (line : List ℕ) (c : ℕ)
    → length line < 128
    → set (line ++ replicate (128 - length line) 0) (length line) c
      ≡ (line ++ (c ∷ [])) ++ replicate (128 - length (line ++ (c ∷ []))) 0
append_key line c h =
    let e : 128 - length line ≡ suc (128 - length (line ++ (c ∷ []))) =
      omega (arith, length-append line (c ∷ [])) in
    rw e (set-append line 0 (replicate (128 - length (line ++ (c ∷ []))) 0) c)

-- With ctrl not held, a line of less than 128 characters in the active terminal and the cursor on
-- the screen, a key that stands for a character appends it to the line and moves the position and
-- the right bound on by one, and the screen is what `putc` of this character makes of it, with the
-- cursor still on it; nothing else of the keyboard's state changes.
pub key_pressed_handler-Holds :
    (scancode c : ℕ) (k : Kernel) (n : ℕ) (line : List ℕ)
    → Holds k n line
    → scancode < 60
    → k.keyboard.ctrl_pressed ≢ 1
    → key_char k.keyboard.keys_state scancode ≡ some c
    → c ≢ 0
    → length line < 128
    → (k' : Kernel) × (key_pressed_handler scancode k ≡ some k')
      × Holds k' n (line ++ (c ∷ []))
      × (k'.keyboard ≡ record k.keyboard {
        key_buffer_pos = length line + 1;
        right_bound = u32 (k.keyboard.right_bound + 1);
      })
      × (putc c k.screen ≡ some k'.screen)
unfolding key_pressed_handler
key_pressed_handler-Holds scancode c k n line h small plain is ne room =
    let t = h.term in
    let (s', put, on) = putc-Keeps c k.screen h.shown in
    let keys' = (line ++ (c ∷ [])) ++ replicate (128 - length (line ++ (c ∷ []))) 0 in
    let at = k.keyboard.key_buffer_pos in
    let stored : set t.key_buffer at c ≡ keys' =
      ap (λ i. set t.key_buffer i c) h.pos
      ∙ ap (λ b. set b (length line) c) h.keys
      ∙ append_key line c room in
    let size : length keys' ≡ 128 =
      sym (ap length stored) ∙ length-set t.key_buffer at c ∙ h.active.size in
    let valid : leb 60 scancode ≡ false = ground arith in
    let no_ctrl : (k.keyboard.ctrl_pressed == 1) ≡ false = ground arith in
    let free : ltb at 128 ≡ true = ground (arith, h.pos) in
    let char : (c == 0) ≡ false = ground arith in
    let up : u32 (at + 1) ≡ length line + 1 = omega (arith, h.pos) in
    let base = with_keys k n t keys' in
    let kb = record k.keyboard {
      key_buffer_pos = length line + 1;
      right_bound = u32 (k.keyboard.right_bound + 1);
    } in
    let a = IsActive-with_keys k n t keys' h.active size in
    (
      record base { keyboard = kb; screen = s' },
      rw (
        valid,
        no_ctrl,
        free,
        is,
        char,
        set_key_lem k n t at c h.active (omega (arith, h.pos)),
        stored,
        up,
        put,
      ),
      record {
        term = record t { key_buffer = keys' };
        active = record { pointer = a.pointer; entry = a.entry; size = a.size };
        keys = refl;
        pos = omega (arith, length-append line (c ∷ []));
        short = omega (arith, length-append line (c ∷ []));
        text = NoNul-snoc line c h.text ne;
        shown = on;
      },
      refl,
      put,
    )
