-- ===== src/Screen/Cells.antt =====
-- `scroll` of student-distrib/lib.c, byte by byte of the video page: characters move up one line,
-- the last line is cleared, and the attribute bytes stay.
use apoll_os.Prelude.{
  ℕ, zero, suc, ◌+◌, ◌*◌, ◌%◌, ◌≤◌, ◌<◌, ◌≡◌, refl, ◌∙◌, ◌≢◌, inl, inr, arith, Bool, true, false,
  ◌&&◌, Option, some, List, ltb, leb, ◌==◌, if◌then◌else◌, Bool-cases, length, get_elem?, set,
  length-set, get_elem?-in, get_elem?-set_self, get_elem?-set_ne, store-set,
}
use apoll_os.Screen.{Screen, scroll_cols, scroll_rows, fill_cells, scroll}

-- The characters from byte `lo` up to byte `hi`.
abbrev pub chars_in : ℕ → ℕ → ℕ → Bool
chars_in lo hi j = (j % 2 == 0) && (leb lo j && ltb j hi)

-- `out` is `video` with the characters from `lo` to `hi` replaced by those one line below.
record Shifted (lo hi : ℕ) (video : List ℕ) (o : Option (List ℕ)) : Type 0 where
  out : List ℕ
  result : o ≡ some out
  same_length : length out ≡ length video
  bytes :
      (j : ℕ)
      → get_elem? out j
        ≡ (if chars_in lo hi j then get_elem? video (j + 160) else get_elem? video j)

shift_byte :
    (video : List ℕ) (p hi c j : ℕ)
    → p % 2 ≡ 0
    → p < length video
    → p + 2 ≤ hi
    → get_elem? video (p + 160) ≡ some c
    → (if chars_in (p + 2) hi j
        then get_elem? (set video p c) (j + 160)
        else get_elem? (set video p c) j)
      ≡ (if chars_in p hi j then get_elem? video (j + 160) else get_elem? video j)
shift_byte video p hi c j even l le at = elim (Bool-cases (p == j)) [
  | inl here ↦
      let e : j ≡ p = ground arith in
      let no : chars_in (p + 2) hi p ≡ false = ground arith in
      let on : chars_in p hi p ≡ true = ground arith in
      rw (e, no, on, get_elem?-set_self video p c l, at)
  | inr off ↦
      let ne : p ≢ j = ground arith in
      let same : chars_in (p + 2) hi j ≡ chars_in p hi j = ground arith in
      rw (same, get_elem?-set_ne video p j c ne) (below ne)
]
  where
    below :
        p ≢ j
        → (if chars_in p hi j then get_elem? (set video p c) (j + 160) else get_elem? video j)
          ≡ (if chars_in p hi j then get_elem? video (j + 160) else get_elem? video j)
    below ne = elim (Bool-cases (chars_in p hi j)) [
      | inl moved ↦ rw (moved, get_elem?-set_ne video p (j + 160) c (ground arith))
      | inr stays ↦ rw stays
    ]

scroll_cols-Shifted :
    (k row col : ℕ) (video : List ℕ)
    → 2 * (80 * row + col + k) + 160 ≤ length video
    → col + k ≤ 80
    → Shifted (2 * (80 * row + col)) (2 * (80 * row + col + k)) video (scroll_cols k row col video)
unfolding scroll_cols
scroll_cols-Shifted zero row col video h w = record {
  out = video;
  result = refl;
  same_length = refl;
  bytes = λ j.
      let no : chars_in (2 * (80 * row + col)) (2 * (80 * row + col + 0)) j ≡ false =
        ground arith in
      rw no;
}
scroll_cols-Shifted (suc k) row col video h w =
    let p : ℕ = 2 * (80 * row + col) in
    let hi : ℕ = 2 * (80 * row + col + suc k) in
    let (c, at) = get_elem?-in video (p + 160) (omega arith) in
    let source : (80 * (row + 1) + col) * 2 ≡ p + 160 = omega arith in
    let target : (80 * row + col) * 2 ≡ p = omega arith in
    let l : p < length video = omega arith in
    let from_next : 2 * (80 * row + (col + 1)) ≡ p + 2 = omega arith in
    let to_same : 2 * (80 * row + (col + 1) + k) ≡ hi = omega arith in
    let rest =
      scroll_cols-Shifted k row (col + 1) (set video p c) (omega (arith, length-set video p c))
        (omega arith) in
    record {
      out = rest.out;
      result = rw (source, target, at, store-set video p c l) rest.result;
      same_length = rest.same_length ∙ length-set video p c;
      bytes = λ j.
          rest.bytes j
          ∙ rw (from_next, to_same) (shift_byte video p hi c j (omega arith) l (omega arith) at);
    }

joined :
    (k row : ℕ) (video out : List ℕ) (j : ℕ)
    → get_elem? out j ≡ (
        if chars_in (2 * (80 * row + 0)) (2 * (80 * row + 0 + 80)) j
        then get_elem? video (j + 160)
        else get_elem? video j)
    → get_elem? out (j + 160) ≡ (
        if chars_in (2 * (80 * row + 0)) (2 * (80 * row + 0 + 80)) (j + 160)
        then get_elem? video (j + 160 + 160)
        else get_elem? video (j + 160))
    → (if chars_in (160 * (row + 1)) (160 * (row + 1 + k)) j
        then get_elem? out (j + 160)
        else get_elem? out j)
      ≡ (if chars_in (160 * row) (160 * (row + suc k)) j
          then get_elem? video (j + 160)
          else get_elem? video j)
joined k row video out j here below =
    elim (Bool-cases (chars_in (160 * (row + 1)) (160 * (row + 1 + k)) j)) [
      | inl later ↦
          let on : chars_in (160 * row) (160 * (row + suc k)) j ≡ true = ground arith in
          let out_of : chars_in (2 * (80 * row + 0)) (2 * (80 * row + 0 + 80)) (j + 160) ≡ false =
            ground arith in
          rw (later, on, below, out_of)
      | inr not_later ↦
          let same : chars_in (2 * (80 * row + 0)) (2 * (80 * row + 0 + 80)) j
              ≡ chars_in (160 * row) (160 * (row + suc k)) j =
            ground arith in
          rw (not_later, here, same)
    ]

-- The rows from `row` on.
scroll_rows-Shifted :
    (k row : ℕ) (video : List ℕ)
    → 160 * (row + k) + 160 ≤ length video
    → Shifted (160 * row) (160 * (row + k)) video (scroll_rows k row video)
unfolding scroll_rows
scroll_rows-Shifted zero row video h = record {
  out = video;
  result = refl;
  same_length = refl;
  bytes = λ j. let no : chars_in (160 * row) (160 * (row + 0)) j ≡ false = ground arith in rw no;
}
scroll_rows-Shifted (suc k) row video h =
    let one = scroll_cols-Shifted 80 row 0 video (omega arith) (omega arith) in
    let rest = scroll_rows-Shifted k (row + 1) one.out (omega (arith, one.same_length)) in
    record {
      out = rest.out;
      result = rw one.result rest.result;
      same_length = rest.same_length ∙ one.same_length;
      bytes = λ j. rest.bytes j ∙ joined k row video one.out j (one.bytes j) (one.bytes (j + 160));
    }

-- `k` cells from cell `i` on hold `c`.
pub record Filled (c lo hi : ℕ) (video : List ℕ) (o : Option (List ℕ)) : Type 0 where
  pub out : List ℕ
  pub result : o ≡ some out
  pub same_length : length out ≡ length video
  pub bytes : (j : ℕ) → get_elem? out j ≡ (if chars_in lo hi j then some c else get_elem? video j)

fill_byte :
    (video : List ℕ) (c p hi j : ℕ)
    → p % 2 ≡ 0
    → p < length video
    → p + 2 ≤ hi
    → (if chars_in (p + 2) hi j then some c else get_elem? (set video p c) j)
      ≡ (if chars_in p hi j then some c else get_elem? video j)
fill_byte video c p hi j even l le = elim (Bool-cases (p == j)) [
  | inl here ↦
      let e : j ≡ p = ground arith in
      let on : chars_in p hi p ≡ true = ground arith in
      let off : chars_in (p + 2) hi p ≡ false = ground arith in
      rw (e, off, on, get_elem?-set_self video p c l)
  | inr away ↦
      let same : chars_in (p + 2) hi j ≡ chars_in p hi j = ground arith in
      rw (same, get_elem?-set_ne video p j c (ground arith))
]

pub fill_cells-Filled :
    (c k i : ℕ) (video : List ℕ)
    → 2 * (i + k) ≤ length video
    → Filled c (2 * i) (2 * (i + k)) video (fill_cells c k i video)
unfolding fill_cells
fill_cells-Filled c zero i video h = record {
  out = video;
  result = refl;
  same_length = refl;
  bytes = λ j. let no : chars_in (2 * i) (2 * (i + 0)) j ≡ false = ground arith in rw no;
}
fill_cells-Filled c (suc k) i video h =
    let p : ℕ = 2 * i in
    let at : i * 2 ≡ p = omega arith in
    let from_next : 2 * (i + 1) ≡ p + 2 = omega arith in
    let to_same : 2 * (i + 1 + k) ≡ 2 * (i + suc k) = omega arith in
    let l : p < length video = omega arith in
    let rest =
      fill_cells-Filled c k (i + 1) (set video p c) (omega (arith, length-set video p c)) in
    record {
      out = rest.out;
      result = rw (at, store-set video p c l) rest.result;
      same_length = rest.same_length ∙ length-set video p c;
      bytes = λ j.
          rest.bytes j
          ∙ rw (from_next, to_same)
              (fill_byte video c p (2 * (i + suc k)) j (omega arith) l (omega arith));
    }

-- What stands at byte `j` of the page after scrolling: the characters of the line below, NUL on the
-- last line, and elsewhere, the attributes and the rest of the page, what stood there.
abbrev pub scrolled_byte : List ℕ → ℕ → Option ℕ
scrolled_byte video j =
    if chars_in 0 3840 j
    then get_elem? video (j + 160)
    else if chars_in 3840 4000 j
    then some 0
    else get_elem? video j

-- On a whole video page `scroll` never leaves the page: it moves every line of characters up by
-- one, clears the last line, keeps every attribute byte, and puts the cursor at the start of the
-- last line, with no write to a port.
pub scroll_lem :
    (s : Screen)
    → length s.video ≡ 4096
    → (s' : Screen) × (scroll s ≡ some s')
      × (s'.screen_x ≡ 0)
      × (s'.screen_y ≡ 24)
      × (s'.out ≡ s.out)
      × (length s'.video ≡ 4096)
      × ((j : ℕ) → get_elem? s'.video j ≡ scrolled_byte s.video j)
unfolding scroll
scroll_lem s page =
    let up = scroll_rows-Shifted 24 0 s.video (omega arith) in
    let last = fill_cells-Filled 0 80 1920 up.out (omega (arith, up.same_length)) in
    (
      record s { video = last.out; screen_x = 0; screen_y = 24 },
      rw (up.result, last.result),
      refl,
      refl,
      refl,
      last.same_length ∙ up.same_length ∙ page,
      λ j. last.bytes j ∙ ground (arith, up.bytes j),
    )
