-- ===== src/Interrupts/Waiting.antt =====
-- The loop of `terminal_read` of student-distrib/terminal.c that waits for enter, with the calls of
-- `keyboard_handler` of student-distrib/keyboard.c that come meanwhile, and the text that is typed.
use apoll_os.Prelude.{
  ℕ, ◌<◌, ◌≡◌, refl, ap, ◌∙◌, inl, inr, arith, Bool, true, false, Option, none, some, List, [], ◌∷◌,
  ◌++◌, leb, ◌==◌, if◌then◌else◌, Bool-cases,
}
use apoll_os.Kernel.{Kernel, Keyboard}
use apoll_os.Keyboard.{key_char}
use apoll_os.Execute.{Flow, returned, entered, resumed}
use apoll_os.Tty.{Reply, terminal_read}
use apoll_os.Interrupts.{
  Key, key_of, modifier, shift_down, shift_up, capslock, ctrl_down, ctrl_up, alt_down, alt_up,
  function, arrow_left, arrow_right, enter, backspace, other, keyboard_handler,
}

-- `while (!enter_pressed)` and what follows, with the scan codes of the interrupts that come. The
-- handler returns into the loop; where it does not, there is no result here.
unfoldable pub after_key : Option Flow → (Kernel → Option Reply) → Option Reply
after_key none next = none
after_key (some (returned ret k)) next = next k
after_key (some (entered eip k)) next = none
after_key (some (resumed status k)) next = none

unfoldable pub wait_read : List ℕ → ℕ → List ℕ → ℕ → Kernel → Option Reply
unfolding after_key
wait_read [] fd buf nbytes k = terminal_read fd buf nbytes k
wait_read (code ∷ codes) fd buf nbytes k =
    if k.keyboard.enter_pressed == 0
    then after_key (keyboard_handler code k) (wait_read codes fd buf nbytes)
    else terminal_read fd buf nbytes k

-- Types a character, or changes how the next ones are typed.
abbrev pub is_typing : Key → Bool
is_typing shift_down = true
is_typing shift_up = true
is_typing capslock = true
is_typing other = true
is_typing _ = false

-- The character of a key in a column of the table, if it has one.
abbrev pub char_of : ℕ → ℕ → List ℕ
char_of state code =
    if leb 60 code
    then []
    else elim (key_char state code) [ none ↦ [] | some c ↦ if c == 0 then [] else c ∷ [] ]

abbrev pub key_text : Key → ℕ → Keyboard → List ℕ
key_text other code kb = char_of kb.keys_state code
key_text key code kb = []

-- What a person has typed.
abbrev pub typed : List ℕ → Keyboard → List ℕ
typed [] kb = []
typed (code ∷ codes) kb = key_text (key_of code) code kb ++ typed codes (modifier (key_of code) kb)

-- The position in the line does not matter for that.
abbrev pub moved : ℕ → ℕ → Keyboard → Keyboard
moved p r kb = record kb { key_buffer_pos = p; right_bound = r }

pub modifier-moved :
    (key : Key) (p r : ℕ) (kb : Keyboard)
    → modifier key (moved p r kb) ≡ moved p r (modifier key kb)
unfolding modifier
modifier-moved shift_down p r kb = refl
modifier-moved shift_up p r kb = refl
modifier-moved capslock p r kb = elim (Bool-cases (kb.capslock_state == 0)) [
  | inl e ↦ rw e
  | inr e ↦ rw e
]
modifier-moved ctrl_down p r kb = refl
modifier-moved ctrl_up p r kb = refl
modifier-moved alt_down p r kb = refl
modifier-moved alt_up p r kb = refl
modifier-moved (function n) p r kb = refl
modifier-moved arrow_left p r kb = refl
modifier-moved arrow_right p r kb = refl
modifier-moved enter p r kb = refl
modifier-moved backspace p r kb = refl
modifier-moved other p r kb = refl

key_text-moved :
    (key : Key) (code p r : ℕ) (kb : Keyboard)
    → key_text key code (moved p r kb) ≡ key_text key code kb
key_text-moved other code p r kb = refl
key_text-moved shift_down code p r kb = refl
key_text-moved _ code p r kb = refl

pub typed-moved :
    (codes : List ℕ) (p r : ℕ) (kb : Keyboard) → typed codes (moved p r kb) ≡ typed codes kb
typed-moved [] p r kb = refl
typed-moved (code ∷ codes) p r kb =
    let first = key_text-moved (key_of code) code p r kb in
    let rest =
      ap (typed codes) (modifier-moved (key_of code) p r kb)
      ∙ typed-moved codes p r (modifier (key_of code) kb) in
    λ i. first i ++ rest i

-- What the other fields do.
pub record Steady (a b : Keyboard) : Type 0 where
  pub ctrl : b.ctrl_pressed ≡ a.ctrl_pressed
  pub enter_flag : b.enter_pressed ≡ a.enter_pressed
  pub column : a.keys_state < 4 → b.keys_state < 4

pub modifier-Steady :
    (key : Key) (kb : Keyboard) → is_typing key ≡ true → Steady kb (modifier key kb)
unfolding modifier
modifier-Steady shift_down kb h = record {
  ctrl = refl;
  enter_flag = refl;
  column = λ s. elim (Bool-cases (kb.capslock_state == 1)) [
    | inl e ↦ rw e (omega arith)
    | inr e ↦ rw e (omega arith)
  ];
}
modifier-Steady shift_up kb h = record {
  ctrl = refl;
  enter_flag = refl;
  column = λ s. elim (Bool-cases (kb.capslock_state == 1)) [
    | inl e ↦ rw e (omega arith)
    | inr e ↦ rw e (omega arith)
  ];
}
modifier-Steady capslock kb h = elim (Bool-cases (kb.capslock_state == 0)) [
  | inl e ↦ rw e (record { ctrl = refl; enter_flag = refl; column = λ s. omega arith })
  | inr e ↦ rw e (record { ctrl = refl; enter_flag = refl; column = λ s. omega arith })
]
modifier-Steady other kb h = record { ctrl = refl; enter_flag = refl; column = λ s. s }
modifier-Steady ctrl_down kb h = cc
modifier-Steady ctrl_up kb h = cc
modifier-Steady alt_down kb h = cc
modifier-Steady alt_up kb h = cc
modifier-Steady (function n) kb h = cc
modifier-Steady arrow_left kb h = cc
modifier-Steady arrow_right kb h = cc
modifier-Steady enter kb h = cc
modifier-Steady backspace kb h = cc
