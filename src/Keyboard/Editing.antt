-- ===== src/Keyboard/Editing.antt =====
-- The key buffer of student-distrib/keyboard.c as the line that is being typed.
use apoll_os.Prelude.{
  ℕ, zero, suc, ◌+◌, ◌≤◌, ◌<◌, ◌≡◌, refl, sym, ap, ◌∙◌, arith, some, List, [], ◌∷◌, ◌++◌, length,
  get_elem?, set, replicate, set-append, set-set, set_same, length-append, length-set,
  lt_of_get_elem?, get_elem?-set_self, store-set,
}
use mathlib.Core.List.{append_assoc}
use apoll_os.Kernel.{Kernel, Terminal}
use apoll_os.Keyboard.{set_key, clear_loop, clear_buffer, set_keyboard}

-- The key buffer points to the terminal `t`, which has index `n`.
pub record IsActive (k : Kernel) (n : ℕ) (t : Terminal) : Type 0 where
  pub pointer : k.keyboard.key_buffer ≡ some n
  pub entry : get_elem? k.terminal n ≡ some t
  pub size : length t.key_buffer ≡ 128

-- The kernel with another key buffer in the active terminal.
abbrev pub with_keys : Kernel → ℕ → Terminal → List ℕ → Kernel
with_keys k n t buf = record k { terminal = set k.terminal n (record t { key_buffer = buf }) }

pub set_key_lem :
    (k : Kernel) (n : ℕ) (t : Terminal) (i c : ℕ)
    → IsActive k n t
    → i < 128
    → set_key i c k ≡ some (with_keys k n t (set t.key_buffer i c))
unfolding set_key
set_key_lem k n t i c a h =
    rw (a.pointer, a.entry, store-set t.key_buffer i c (omega (arith, a.size)))

pub IsActive-with_keys :
    (k : Kernel) (n : ℕ) (t : Terminal) (buf : List ℕ)
    → IsActive k n t
    → length buf ≡ 128
    → IsActive (with_keys k n t buf) n (record t { key_buffer = buf })
IsActive-with_keys k n t buf a h = record {
  pointer = a.pointer;
  entry =
      get_elem?-set_self k.terminal n (record t { key_buffer = buf })
        (lt_of_get_elem? k.terminal n t a.entry);
  size = h;
}

-- The bytes from `i` on become NUL, one after the other.
abbrev cleared : ℕ → ℕ → List ℕ → List ℕ
cleared zero i buf = buf
cleared (suc m) i buf = cleared m (i + 1) (set buf i 0)

clear_loop_lem :
    (m i : ℕ) (k : Kernel) (n : ℕ) (t : Terminal)
    → IsActive k n t
    → i + m ≤ 128
    → clear_loop m i k ≡ some (with_keys k n t (cleared m i t.key_buffer))
unfolding clear_loop
clear_loop_lem zero i k n t a h =
    ap (λ ts. some (record k { terminal = ts })) (sym (set_same k.terminal n t a.entry))
clear_loop_lem (suc m) i k n t a h =
    let buf = set t.key_buffer i 0 in
    let a' = IsActive-with_keys k n t buf a (length-set t.key_buffer i 0 ∙ a.size) in
    let t' = record t { key_buffer = buf } in
    rw (
      set_key_lem k n t i 0 a (omega arith),
      clear_loop_lem m (i + 1) (with_keys k n t buf) n t' a' (omega arith),
      set-set k.terminal n t' (record t { key_buffer = cleared m (i + 1) buf }),
    )

cleared_lem :
    (m : ℕ) (front rest : List ℕ)
    → length rest ≡ m
    → cleared m (length front) (front ++ rest) ≡ front ++ replicate m 0
cleared_lem zero front [] h = refl
cleared_lem zero front (x ∷ rest) h = absurd (omega arith)
cleared_lem (suc m) front [] h = absurd (omega arith)
cleared_lem (suc m) front (x ∷ rest) h =
    let len : length (front ++ (0 ∷ [])) ≡ length front + 1 =
      omega (arith, length-append front (0 ∷ [])) in
    rw (
      set-append front x rest 0,
      ← len,
      cleared_lem m (front ++ (0 ∷ [])) rest (omega arith),
      append_assoc front (0 ∷ []),
    )

-- With 128 keys in the active terminal's buffer, `clear_buffer` fills that buffer with NUL and
-- starts the line anew; nothing else of the kernel changes.
pub clear_buffer_lem :
    (k : Kernel) (n : ℕ) (t : Terminal)
    → IsActive k n t
    → clear_buffer k
      ≡ some (
          set_keyboard
            (λ kb. record kb { key_buffer_pos = 0; right_bound = 7 })
            (with_keys k n t (replicate 128 0)))
unfolding clear_buffer
clear_buffer_lem k n t a =
    let k' = set_keyboard (λ kb. record kb { key_buffer_pos = 0; right_bound = 7 }) k in
    let a' : IsActive k' n t = record { pointer = a.pointer; entry = a.entry; size = a.size } in
    rw (clear_loop_lem 128 0 k' n t a' (omega arith), cleared_lem 128 [] t.key_buffer a.size)
