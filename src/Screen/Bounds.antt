-- ===== src/Screen/Bounds.antt =====
-- No output function of student-distrib/lib.c leaves the video page while the cursor is on the
-- screen, and each keeps the cursor on the screen.
use apoll_os.Prelude.{
  ℕ, suc, ◌+◌, ◌*◌, ◌^◌, ◌<◌, ◌≡◌, ap, ◌∙◌, inl, inr, arith, false, ◌||◌, Option, some, List, [],
  ◌∷◌, ◌++◌, ◌==◌, Bool-cases, length, set, length-set, store-set, u32, slt,
}
use apoll_os.CString.Compare.{NoNul}
use apoll_os.Screen.{Screen, do_enter, putc, puts, puts_loop, update_cursor_loc, cell_offset}
use apoll_os.Screen.Cells.{scroll_lem}

-- The cursor stands on one of the 25 lines of 80 columns, and the page is whole.
pub record IsOnScreen (s : Screen) : Type 0 where
  pub page : length s.video ≡ 4096
  pub column : s.screen_x < 80
  pub line : s.screen_y < 25

-- The step does not fault, and leaves the cursor on the screen.
abbrev pub Keeps : Option Screen → Type 0
Keeps o = (s' : Screen) × (o ≡ some s') × IsOnScreen s'

pub do_enter-Keeps : (s : Screen) → length s.video ≡ 4096 → s.screen_y < 25 → Keeps (do_enter s)
unfolding do_enter update_cursor_loc
do_enter-Keeps s page line = elim (Bool-cases (s.screen_y == 24)) [
  | inl last ↦
      let (s', e, x, y, o, l, b) = scroll_lem s page in
      (update_cursor_loc 0 s'.screen_y (record s' { screen_x = 0 }), rw (last, e), ground arith)
  | inr higher ↦
      let y : u32 (s.screen_y + 1) ≡ s.screen_y + 1 = omega arith in
      (
        update_cursor_loc 0 (s.screen_y + 1) (record s { screen_x = 0; screen_y = s.screen_y + 1 }),
        rw (higher, y),
        ground arith,
      )
]

pub offset_lem : (x y : ℕ) → x < 80 → y < 25 → cell_offset x y ≡ 2 * (80 * y + x)
offset_lem x y hx hy = omega arith

-- With the cursor on the screen, every character that is put stays inside the video page and
-- leaves the cursor on the screen.
pub putc-Keeps : (c : ℕ) (s : Screen) → IsOnScreen s → Keeps (putc c s)
unfolding putc
putc-Keeps c s v = elim (Bool-cases (c == 10 || c == 13)) [
  | inl newline ↦ rw newline (do_enter-Keeps s v.page v.line)
  | inr char ↦
      let p : ℕ = 2 * (80 * s.screen_y + s.screen_x) in
      let at = offset_lem s.screen_x s.screen_y v.column v.line in
      let put = store-set s.video p c (omega (arith, v.page, v.column, v.line)) in
      let x : u32 (s.screen_x + 1) ≡ s.screen_x + 1 = omega (arith, v.column) in
      let next = record s { video = set s.video p c; screen_x = s.screen_x + 1 } in
      elim (Bool-cases (slt (s.screen_x + 1) 80)) [
        | inl fits ↦ (
          update_cursor_loc (s.screen_x + 1) s.screen_y next,
          rw (char, at, put, x, fits),
          unfold update_cursor_loc in
              record {
                page = length-set s.video p c ∙ v.page;
                column = ground (arith, v.column);
                line = v.line;
              },
        )
        | inr full ↦
            rw (char, at, put, x, full)
              (do_enter-Keeps next (length-set s.video p c ∙ v.page) v.line)
      ]
]

-- Writing a string puts each of its bytes on the screen and returns how many there are.
puts_loop-Keeps :
    (str rest : List ℕ) (index : ℕ) (s : Screen)
    → NoNul str
    → index + length str < 2 ^ 32
    → IsOnScreen s
    → (s' : Screen) × (puts_loop (str ++ (0 ∷ rest)) index s ≡ some (index + length str, s'))
      × IsOnScreen s'
unfolding puts_loop
puts_loop-Keeps [] rest index s n w v = (s, ap (λ k. some (k, s)) (omega arith), v)
puts_loop-Keeps (c ∷ str) rest index s n w v =
    let (s', e, v') = putc-Keeps c s v in
    let (s'', e', v'') = puts_loop-Keeps str rest (index + 1) s' n.1 (omega arith) v' in
    let more : (c == 0) ≡ false = ground (arith, n.0) in
    let i : u32 (index + 1) ≡ index + 1 = omega arith in
    let k : index + 1 + length str ≡ index + suc (length str) = omega arith in
    (s'', rw (more, e, i, ← k) e', v'')

-- With the cursor on the screen, `puts` on a string of less than 2 ^ 32 bytes ends, returns its
-- length, stays inside the video page and leaves the cursor on the screen.
pub puts-Keeps :
    (str rest : List ℕ) (s : Screen)
    → NoNul str
    → length str < 2 ^ 32
    → IsOnScreen s
    → (s' : Screen) × (puts (str ++ (0 ∷ rest)) s ≡ some (length str, s')) × IsOnScreen s'
unfolding puts
puts-Keeps str rest s n w v =
    let (s', e, v') = puts_loop-Keeps str rest 0 s n (omega arith) v in
    let k : 0 + length str ≡ length str = omega arith in (s', rw (← k) e, v')
