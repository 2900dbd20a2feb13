-- ===== src/Interrupts/Modifiers.antt =====
-- The modifier keys of student-distrib/keyboard.c as a state machine.
use apoll_os.Prelude.{
  ℕ, ◌+◌, ◌*◌, ◌≤◌, ◌≡◌, inl, inr, arith, Bool, true, false, ◌&&◌, List, [], ◌∷◌, ◌==◌, Bool-cases,
}
use apoll_os.Kernel.{Keyboard}
use apoll_os.Interrupts.{
  Key, key_of, modifier, shift_down, shift_up, capslock, ctrl_down, ctrl_up, alt_down, alt_up,
  function, arrow_left, arrow_right, enter, backspace, other,
}

-- The column of `key_scancodes` is the one for the shift and capslock flags.
pub record IsConsistent (kb : Keyboard) : Type 0 where
  pub shift_flag : kb.shift_pressed ≤ 1
  pub caps_flag : kb.capslock_state ≤ 1
  pub column : kb.keys_state ≡ kb.shift_pressed + 2 * kb.capslock_state

abbrev pub is_capslock : Key → Bool
is_capslock capslock = true
is_capslock _ = false

-- The keyboard's state after the keys of the given scan codes, as far as they are modifiers.
abbrev pub after_keys : List ℕ → Keyboard → Keyboard
after_keys [] kb = kb
after_keys (c ∷ codes) kb = after_keys codes (modifier (key_of c) kb)

-- Capslock is pressed only while shift is not held.
abbrev pub Apart : List ℕ → Keyboard → Type 0
Apart [] kb = Unit {0}
Apart (c ∷ codes) kb =
    ((is_capslock (key_of c) && (kb.shift_pressed == 1)) ≡ false)
    × Apart codes (modifier (key_of c) kb)

shift_down_lem : (kb : Keyboard) → IsConsistent kb → IsConsistent (modifier shift_down kb)
unfolding modifier
shift_down_lem kb h = elim (Bool-cases (kb.capslock_state == 1)) [
  | inl on ↦ record {
    shift_flag = omega arith;
    caps_flag = h.caps_flag;
    column = rw on (ground arith);
  }
  | inr off ↦ record {
    shift_flag = omega arith;
    caps_flag = h.caps_flag;
    column = rw off (ground (arith, h.caps_flag));
  }
]

shift_up_lem : (kb : Keyboard) → IsConsistent kb → IsConsistent (modifier shift_up kb)
unfolding modifier
shift_up_lem kb h = elim (Bool-cases (kb.capslock_state == 1)) [
  | inl on ↦ record {
    shift_flag = omega arith;
    caps_flag = h.caps_flag;
    column = rw on (ground arith);
  }
  | inr off ↦ record {
    shift_flag = omega arith;
    caps_flag = h.caps_flag;
    column = rw off (ground (arith, h.caps_flag));
  }
]

capslock_lem :
    (kb : Keyboard)
    → IsConsistent kb
    → (kb.shift_pressed == 1) ≡ false
    → IsConsistent (modifier capslock kb)
unfolding modifier
capslock_lem kb h free =
    let up : kb.shift_pressed ≡ 0 = ground (arith, h.shift_flag) in
    elim (Bool-cases (kb.capslock_state == 0)) [
      | inl off ↦
          rw off
            (record { shift_flag = h.shift_flag; caps_flag = omega arith; column = omega arith })
      | inr on ↦
          rw on
            (record { shift_flag = h.shift_flag; caps_flag = omega arith; column = omega arith })
    ]

modifier_lem :
    (key : Key) (kb : Keyboard)
    → IsConsistent kb
    → (is_capslock key && (kb.shift_pressed == 1)) ≡ false
    → IsConsistent (modifier key kb)
unfolding modifier
modifier_lem shift_down kb h free = shift_down_lem kb h
modifier_lem shift_up kb h free = shift_up_lem kb h
modifier_lem capslock kb h free = capslock_lem kb h free
modifier_lem ctrl_down kb h free = record {
  shift_flag = h.shift_flag;
  caps_flag = h.caps_flag;
  column = h.column;
}
modifier_lem ctrl_up kb h free = record {
  shift_flag = h.shift_flag;
  caps_flag = h.caps_flag;
  column = h.column;
}
modifier_lem alt_down kb h free = record {
  shift_flag = h.shift_flag;
  caps_flag = h.caps_flag;
  column = h.column;
}
modifier_lem alt_up kb h free = record {
  shift_flag = h.shift_flag;
  caps_flag = h.caps_flag;
  column = h.column;
}
modifier_lem (function n) kb h free = h
modifier_lem arrow_left kb h free = h
modifier_lem arrow_right kb h free = h
modifier_lem enter kb h free = h
modifier_lem backspace kb h free = h
modifier_lem other kb h free = h

-- Along any sequence of scan codes in which capslock is pressed only while shift is not held,
-- `keys_state` stays the column of `key_scancodes` for the flags of shift and capslock.
pub after_keys-IsConsistent :
    (codes : List ℕ) (kb : Keyboard)
    → IsConsistent kb
    → Apart codes kb
    → IsConsistent (after_keys codes kb)
after_keys-IsConsistent [] kb h apart = h
after_keys-IsConsistent (c ∷ codes) kb h apart =
    after_keys-IsConsistent codes (modifier (key_of c) kb) (modifier_lem (key_of c) kb h apart.0)
      apart.1

-- If `keys_state` is the column for the flags and shift is held, then after capslock it is not.
pub modifier-capslock :
    (kb : Keyboard) → IsConsistent kb → kb.shift_pressed ≡ 1 → ¬ IsConsistent (modifier capslock kb)
unfolding modifier
modifier-capslock kb h held bad = elim (Bool-cases (kb.capslock_state == 0)) [
  | inl off ↦ ground (arith, bad.column)
  | inr on ↦ ground (arith, bad.column)
]
