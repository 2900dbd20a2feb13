-- ===== src/Interrupts/Pressing.antt =====
-- `keyboard_handler` of student-distrib/keyboard.c on one key of a line that is typed.
use apoll_os.Prelude.{
  ℕ, ◌+◌, ◌<◌, ◌≡◌, refl, sym, ap, ◌∙◌, ◌≢◌, inl, inr, arith, Bool, true, false, Option, none, some,
  List, [], ◌∷◌, ◌++◌, ltb, leb, ◌==◌, ◌!=◌, Bool-cases, length, u32, all_below, all_below_sound,
}
use mathlib.Core.List.{append-nil}
use mathlib.Core.Path.{subst}
use apoll_os.Kernel.{Kernel, Keyboard}
use apoll_os.Keyboard.{key_char, key_scancodes, key_pressed_handler, set_keyboard}
use apoll_os.Keyboard.Typing.{Holds, key_pressed_handler-Holds}
use apoll_os.Execute.{Flow, returned}
use apoll_os.Interrupts.{
  Key, key_of, modifier, shift_down, shift_up, capslock, ctrl_down, ctrl_up, alt_down, alt_up,
  function, arrow_left, arrow_right, enter, backspace, other, handle_key, keyboard_handler,
}
use apoll_os.Interrupts.Waiting.{is_typing, key_text, moved}
use apoll_os.Interrupts.Serving.{serviced, served, Holds-serviced, Holds-served, Holds-keyboard}

-- What one key does: the text is longer by what it types, and the keyboard's flags are those of the
-- modifier.
pub record Typed (k : Kernel) (n : ℕ) (line : List ℕ) (key : Key) (code : ℕ) (k' : Kernel)
    : Type 0 where
  pub holds : Holds k' n (line ++ key_text key code k.keyboard)
  pub pos : ℕ
  pub bound : ℕ
  pub keyboard : k'.keyboard ≡ moved pos bound (modifier key k.keyboard)

abbrev pub Types : Kernel → ℕ → List ℕ → Key → ℕ → Option Flow → Type 0
Types k n line key code o = (k' : Kernel) × (o ≡ some (returned 0 k')) × Typed k n line key code k'

silent :
    (k : Kernel) (n : ℕ) (line : List ℕ) (code : ℕ)
    → Holds k n line
    → key_text other code k.keyboard ≡ []
    → Typed k n line other code k
unfolding modifier
silent k n line code h none_typed = record {
  holds = subst (Holds k n) (sym (ap (λ t. line ++ t) none_typed ∙ append-nil line)) h;
  pos = k.keyboard.key_buffer_pos;
  bound = k.keyboard.right_bound;
  keyboard = refl;
}

key_pressed_handler-Types :
    (k : Kernel) (n : ℕ) (line : List ℕ) (code : ℕ) (o : Option ℕ)
    → code < 60
    → key_char k.keyboard.keys_state code ≡ o
    → o ≢ none
    → Holds k n line
    → k.keyboard.ctrl_pressed ≢ 1
    → length line < 128
    → (k' : Kernel) × (key_pressed_handler code k ≡ some k') × Typed k n line other code k'
unfolding modifier key_pressed_handler
key_pressed_handler-Types k n line code none small is some_char h plain room =
    absurd (some_char refl)
key_pressed_handler-Types k n line code (some c) small is some_char h plain room =
    let valid : leb 60 code ≡ false = ground arith in
    let no_ctrl : (k.keyboard.ctrl_pressed == 1) ≡ false = ground arith in
    let free : ltb k.keyboard.key_buffer_pos 128 ≡ true = ground (arith, h.pos) in
    elim (Bool-cases (c == 0)) [
      | inl nul ↦
          (k, rw (valid, no_ctrl, free, is, nul), silent k n line code h (rw (valid, is, nul)))
      | inr char ↦
          let (k', run, holds, kb, shown) =
            key_pressed_handler-Holds code c k n line h small plain is (ground arith) room in
          let added : key_text other code k.keyboard ≡ c ∷ [] = rw (valid, is, char) in
          (
            k',
            run,
            record {
              holds = subst (λ t. Holds k' n (line ++ t)) (sym added) holds;
              pos = length line + 1;
              bound = u32 (k.keyboard.right_bound + 1);
              keyboard = kb;
            },
          )
    ]

abbrev is_some : Option ℕ → Bool
is_some none = false
is_some (some c) = true

char_table : all_below 4 (λ state. all_below 60 (λ code. is_some (key_char state code))) ≡ true
unfolding all_below key_char key_scancodes
char_table = refl

key_char-in_table : (state code : ℕ) → state < 4 → code < 60 → key_char state code ≢ none
key_char-in_table state code hs hc e =
    let row = all_below_sound 4 _ state char_table hs in
    let there = all_below_sound 60 (λ c. is_some (key_char state c)) code row hc in
    contradiction (sym (ap is_some e) ∙ there)
  where
    contradiction : false ≡ true → ⊥
    contradiction h = cc

-- A modifier key does not touch the line.
flags_only :
    (k : Kernel) (n : ℕ) (line : List ℕ) (key : Key) (code : ℕ)
    → key_text key code k.keyboard ≡ []
    → (modifier key k.keyboard).key_buffer ≡ k.keyboard.key_buffer
    → (modifier key k.keyboard).key_buffer_pos ≡ k.keyboard.key_buffer_pos
    → Holds k n line
    → Typed k n line key code (set_keyboard (modifier key) k)
flags_only k n line key code none_typed same_buffer same_pos h = record {
  holds =
      subst (Holds (set_keyboard (modifier key) k) n)
        (sym (ap (λ t. line ++ t) none_typed ∙ append-nil line))
        (Holds-keyboard k n line (modifier key k.keyboard) same_buffer same_pos h);
  pos = (modifier key k.keyboard).key_buffer_pos;
  bound = (modifier key k.keyboard).right_bound;
  keyboard = refl;
}

capslock-same :
    (kb : Keyboard)
    → ((modifier capslock kb).key_buffer ≡ kb.key_buffer)
      × ((modifier capslock kb).key_buffer_pos ≡ kb.key_buffer_pos)
unfolding modifier
capslock-same kb = elim (Bool-cases (kb.capslock_state == 0)) [
  | inl e ↦ rw e (refl, refl)
  | inr e ↦ rw e (refl, refl)
]

handle_key-Types :
    (k : Kernel) (n : ℕ) (line : List ℕ) (key : Key) (code : ℕ)
    → is_typing key ≡ true
    → Holds k n line
    → k.keyboard.ctrl_pressed ≢ 1
    → k.keyboard.keys_state < 4
    → length line < 128
    → Types k n line key code (handle_key key code k)
unfolding handle_key modifier
handle_key-Types k n line shift_down code t h plain col room = (
  set_keyboard (modifier shift_down) k,
  refl,
  flags_only k n line shift_down code refl refl refl h,
)
handle_key-Types k n line shift_up code t h plain col room =
    (set_keyboard (modifier shift_up) k, refl, flags_only k n line shift_up code refl refl refl h)
handle_key-Types k n line capslock code t h plain col room =
    let (same_buffer, same_pos) = capslock-same k.keyboard in
    (
      set_keyboard (modifier capslock) k,
      refl,
      flags_only k n line capslock code refl same_buffer same_pos h,
    )
handle_key-Types k n line other code t h plain col room = elim (Bool-cases (leb 60 code)) [
  | inl no_key ↦
      let skipped : key_pressed_handler code k ≡ some k = unfold key_pressed_handler in rw no_key in
      (k, rw skipped, silent k n line code h (rw no_key))
  | inr a_key ↦
      let small : code < 60 = ground arith in
      let (k', run, typed_it) =
        key_pressed_handler-Types k n line code (key_char k.keyboard.keys_state code) small refl
          (key_char-in_table k.keyboard.keys_state code col small) h plain room in
      (k', rw run, typed_it)
]
handle_key-Types k n line ctrl_down code t h plain col room = cc
handle_key-Types k n line ctrl_up code t h plain col room = cc
handle_key-Types k n line alt_down code t h plain col room = cc
handle_key-Types k n line alt_up code t h plain col room = cc
handle_key-Types k n line (function m) code t h plain col room = cc
handle_key-Types k n line arrow_left code t h plain col room = cc
handle_key-Types k n line arrow_right code t h plain col room = cc
handle_key-Types k n line enter code t h plain col room = cc
handle_key-Types k n line backspace code t h plain col room = cc

pub keyboard_handler-Types :
    (k : Kernel) (n : ℕ) (line : List ℕ) (code : ℕ)
    → is_typing (key_of code) ≡ true
    → Holds k n line
    → k.keyboard.ctrl_pressed ≢ 1
    → k.keyboard.keys_state < 4
    → length line < 128
    → Types k n line (key_of code) code (keyboard_handler code k)
unfolding keyboard_handler
keyboard_handler-Types k n line code t h plain col room =
    let h0 = Holds-serviced k n line h in
    elim (Bool-cases (code != 0xe0)) [
      | inl key ↦
          let (k', run, typed_it) =
            handle_key-Types (serviced k) n line (key_of code) code t h0 plain col room in
          (
            served k',
            rw (key, run),
            record {
              holds =
                  Holds-served k' n (line ++ key_text (key_of code) code k.keyboard) typed_it.holds;
              pos = typed_it.pos;
              bound = typed_it.bound;
              keyboard = typed_it.keyboard;
            },
          )
      | inr extended ↦
          let same : 0xe0 ≡ code = ground arith in
          (
            served (serviced k),
            rw extended,
            subst (λ c. Typed k n line (key_of c) c (served (serviced k))) same (no_key h0),
          )
    ]
  where
    no_key : Holds (serviced k) n line → Typed k n line (key_of 0xe0) 0xe0 (served (serviced k))
    no_key h0 =
        unfold key_of in
        unfold modifier in
        record {
          holds =
              subst (Holds (served (serviced k)) n) (sym (append-nil line))
                (Holds-served (serviced k) n line h0);
          pos = k.keyboard.key_buffer_pos;
          bound = k.keyboard.right_bound;
          keyboard = refl;
        }
