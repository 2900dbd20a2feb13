-- ===== src/Screen/Backspace.antt =====
-- What `do_backspace` of student-distrib/lib.c undoes.
use apoll_os.Prelude.{
  ℕ, ◌+◌, ◌*◌, ◌<◌, ◌≡◌, refl, ◌∙◌, ◌≢◌, arith, true, false, ◌&&◌, ◌||◌, none, some, ltb, ◌==◌,
  le→ltb, length, get_elem?, set, set-set, length-set, get_elem?-set_self, get_elem?-set_ne,
  store-set, ◌>>=◌, u32, sub32, slt,
}
use apoll_os.Screen.{Screen, putc, do_backspace, do_enter, update_cursor_loc}
use apoll_os.Screen.Bounds.{IsOnScreen, offset_lem}

-- A character that does not start a new line.
abbrev pub IsChar : ℕ → Type 0
IsChar c = (c ≢ 10) × (c ≢ 13)

not_newline : (c : ℕ) → IsChar c → (c == 10 || c == 13) ≡ false
not_newline c h = ground arith

putc-inside :
    (c : ℕ) (s : Screen)
    → IsChar c
    → IsOnScreen s
    → s.screen_x < 79
    → putc c s
      ≡ some (
          update_cursor_loc (s.screen_x + 1) s.screen_y (record s {
            video = set s.video (2 * (80 * s.screen_y + s.screen_x)) c;
            screen_x = s.screen_x + 1;
          }))
unfolding putc
putc-inside c s h v inside =
    let p : ℕ = 2 * (80 * s.screen_y + s.screen_x) in
    let put = store-set s.video p c (omega (arith, v.page, v.column, v.line)) in
    let x : u32 (s.screen_x + 1) ≡ s.screen_x + 1 = omega arith in
    let fits : slt (s.screen_x + 1) 80 ≡ true = ground arith in
    rw (not_newline c h, offset_lem s.screen_x s.screen_y v.column v.line, put, x, fits)

-- Short of the last column, a backspace after a character that is no line end puts the cursor back
-- to where the character was written, clears that character, and changes no other byte of the
-- page.
pub do_backspace-putc :
    (c : ℕ) (s : Screen)
    → IsChar c
    → IsOnScreen s
    → s.screen_x < 79
    → (s' : Screen) × ((putc c s >>= do_backspace) ≡ some s')
      × (s'.screen_x ≡ s.screen_x)
      × (s'.screen_y ≡ s.screen_y)
      × (s'.video ≡ set s.video (2 * (80 * s.screen_y + s.screen_x)) 0)
unfolding do_backspace update_cursor_loc
do_backspace-putc c s h v inside =
    let p : ℕ = 2 * (80 * s.screen_y + s.screen_x) in
    let moved : (s.screen_x + 1 == 0 && slt 0 s.screen_y) ≡ false = ground arith in
    let back : sub32 (s.screen_x + 1) 1 ≡ s.screen_x = omega arith in
    let put =
      store-set (set s.video p c) p 0
        (omega (arith, v.page, v.column, v.line, length-set s.video p c)) in
    let typed =
      update_cursor_loc (s.screen_x + 1) s.screen_y
        (record s { video = set s.video p c; screen_x = s.screen_x + 1 }) in
    (
      update_cursor_loc s.screen_x s.screen_y
          (record typed { video = set (set s.video p c) p 0; screen_x = s.screen_x }),
      rw (
        putc-inside c s h v inside,
        moved,
        back,
        offset_lem s.screen_x s.screen_y v.column v.line,
        put,
      ),
      refl,
      refl,
      set-set s.video p c 0,
    )

putc-last :
    (c : ℕ) (s : Screen)
    → IsChar c
    → IsOnScreen s
    → s.screen_x ≡ 79
    → s.screen_y < 24
    → putc c s
      ≡ some (
          update_cursor_loc 0 (s.screen_y + 1) (record s {
            video = set s.video (2 * (80 * s.screen_y + 79)) c;
            screen_x = 0;
            screen_y = s.screen_y + 1;
          }))
unfolding putc do_enter
putc-last c s h v last upper =
    let p : ℕ = 2 * (80 * s.screen_y + s.screen_x) in
    let here : p ≡ 2 * (80 * s.screen_y + 79) = omega arith in
    let put = store-set s.video p c (omega (arith, v.page, v.column, v.line)) in
    let x : u32 (s.screen_x + 1) ≡ 80 = omega arith in
    let higher : (s.screen_y == 24) ≡ false = ground arith in
    let y : u32 (s.screen_y + 1) ≡ s.screen_y + 1 = omega arith in
    rw (not_newline c h, offset_lem s.screen_x s.screen_y v.column v.line, put, x, higher, y, here)

-- After a character that is no line end in the last column of a line that is not the last, a
-- backspace goes to the last column but one of that line, clears the cell there, and leaves the
-- character where it is.
pub do_backspace-last_column :
    (c : ℕ) (s : Screen)
    → IsChar c
    → IsOnScreen s
    → s.screen_x ≡ 79
    → s.screen_y < 24
    → (s' : Screen) × ((putc c s >>= do_backspace) ≡ some s')
      × (s'.screen_x ≡ 78)
      × (s'.screen_y ≡ s.screen_y)
      × (get_elem? s'.video (2 * (80 * s.screen_y + 78)) ≡ some 0)
      × (get_elem? s'.video (2 * (80 * s.screen_y + 79)) ≡ some c)
unfolding do_backspace update_cursor_loc
do_backspace-last_column c s h v last upper =
    let p : ℕ = 2 * (80 * s.screen_y + 79) in
    let q : ℕ = 2 * (80 * s.screen_y + 78) in
    let below : slt 0 (s.screen_y + 1) ≡ true = ground arith in
    let up : sub32 (s.screen_y + 1) 1 ≡ s.screen_y = omega arith in
    let in_page : q < length (set s.video p c) = omega (arith, v.page, length-set s.video p c) in
    let typed =
      update_cursor_loc 0 (s.screen_y + 1)
        (record s { video = set s.video p c; screen_x = 0; screen_y = s.screen_y + 1 }) in
    (
      update_cursor_loc 78 s.screen_y (record typed {
        video = set (set s.video p c) q 0;
        screen_x = 78;
        screen_y = s.screen_y;
      }),
      rw (
        putc-last c s h v last upper,
        below,
        up,
        offset_lem 78 s.screen_y (omega arith) v.line,
        store-set (set s.video p c) q 0 in_page,
      ),
      refl,
      refl,
      get_elem?-set_self (set s.video p c) q 0 in_page,
      get_elem?-set_ne (set s.video p c) q p 0 (omega arith)
          ∙ get_elem?-set_self s.video p c (omega (arith, v.page)),
    )

-- On a whole page, a backspace with the cursor in the top left corner writes outside the video
-- page.
pub do_backspace-corner :
    (s : Screen) → length s.video ≡ 4096 → s.screen_x ≡ 0 → s.screen_y ≡ 0 → do_backspace s ≡ none
unfolding do_backspace
do_backspace-corner s page x y =
    let out : ltb 4294967294 (length s.video) ≡ false =
      le→ltb 4294967294 (length s.video) (omega arith) in
    rw (x, y, out)
