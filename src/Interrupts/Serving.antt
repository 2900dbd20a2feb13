-- ===== src/Interrupts/Serving.antt =====
-- The line that is typed, while `keyboard_handler` of student-distrib/keyboard.c changes other things.
use apoll_os.Prelude.{ℕ, ◌≡◌, ◌∙◌, true, false, List}
use apoll_os.Kernel.{Kernel, Keyboard}
use apoll_os.Pic.{send_eoi}
use apoll_os.Keyboard.Typing.{Holds}

-- The line is not touched by what else an interrupt changes.
abbrev pub serviced : Kernel → Kernel
serviced k = record k { interrupts = false; pic = send_eoi 1 k.pic }

abbrev pub served : Kernel → Kernel
served k = record k { interrupts = true }

pub Holds-serviced :
    (k : Kernel) (n : ℕ) (line : List ℕ) → Holds k n line → Holds (serviced k) n line
Holds-serviced k n line h = record {
  term = h.term;
  active = record { pointer = h.active.pointer; entry = h.active.entry; size = h.active.size };
  keys = h.keys;
  pos = h.pos;
  short = h.short;
  text = h.text;
  shown = h.shown;
}

pub Holds-served : (k : Kernel) (n : ℕ) (line : List ℕ) → Holds k n line → Holds (served k) n line
Holds-served k n line h = record {
  term = h.term;
  active = record { pointer = h.active.pointer; entry = h.active.entry; size = h.active.size };
  keys = h.keys;
  pos = h.pos;
  short = h.short;
  text = h.text;
  shown = h.shown;
}

pub Holds-keyboard :
    (k : Kernel) (n : ℕ) (line : List ℕ) (kb : Keyboard)
    → kb.key_buffer ≡ k.keyboard.key_buffer
    → kb.key_buffer_pos ≡ k.keyboard.key_buffer_pos
    → Holds k n line
    → Holds (record k { keyboard = kb }) n line
Holds-keyboard k n line kb same_buffer same_pos h = record {
  term = h.term;
  active = record {
    pointer = same_buffer ∙ h.active.pointer;
    entry = h.active.entry;
    size = h.active.size;
  };
  keys = h.keys;
  pos = same_pos ∙ h.pos;
  short = h.short;
  text = h.text;
  shown = h.shown;
}
