-- ===== src/Printf/Conversions.antt =====
-- The numbers that `printf` of student-distrib/lib.c writes with %#x and %d.
use apoll_os.Prelude.{
  ℕ, zero, suc, ◌-◌, ◌^◌, ◌<◌, ◌≡◌, refl, sym, ap, inl, inr, arith, true, false, some, List, ◌∷◌,
  ◌++◌, ltb, Bool-cases, length, replicate, length-append, length-replicate, sub32, neg32,
}
use mathlib.Core.List.{append_assoc}
use apoll_os.CString.Compare.{NoNul, strlen_lem}
use apoll_os.Printf.{hex_text, signed_text}
use apoll_os.Printf.Pieces.{Filled, Signed, Converted, itoa-Converted}

-- Zeros in front of a text.
NoNul-replicate : (n : ℕ) (t : List ℕ) → NoNul t → NoNul (replicate n b'0' ++ t)
NoNul-replicate zero t h = h
NoNul-replicate (suc n) t h = ((λ e. absurd (omega arith)), NoNul-replicate n t h)

pub hex_text-Filled :
    (w : ℕ)
    → w < 2 ^ 32
    → (shown : List ℕ) × (behind : List ℕ) × Filled w shown
      × (hex_text true w ≡ some (shown ++ (0 ∷ behind)))
      × NoNul shown
      × (length shown < 2 ^ 32)
unfolding hex_text
hex_text-Filled w h =
    let c = itoa-Converted 16 w h (omega arith) (omega arith) in
    let zeros = replicate {A = ℕ} (8 - length c.shown) b'0' in
    let size = strlen_lem c.shown c.behind c.plain_text (omega (arith, c.short)) in
    (
      zeros ++ c.shown,
      c.behind,
      record { numeral = c.shown; is_numeral = c.is_numeral; filled = refl },
      rw (c.run, size) (ap some (sym (append_assoc zeros c.shown (0 ∷ c.behind)))),
      NoNul-replicate (8 - length c.shown) c.shown c.plain_text,
      omega (
        arith,
        c.short,
        length-append zeros c.shown,
        length-replicate {A = ℕ} (8 - length c.shown) b'0',
      ),
    )

signed_text-negative :
    (w m : ℕ) (c : Converted 10 m)
    → neg32 w ≡ true
    → sub32 0 w ≡ m
    → signed_text w ≡ some (b'-' ∷ (c.shown ++ (0 ∷ c.behind)))
unfolding signed_text
signed_text-negative w m c negative e = rw (negative, e, c.run)

pub signed_text-Signed :
    (w : ℕ)
    → w < 2 ^ 32
    → (shown : List ℕ) × (behind : List ℕ) × Signed w shown
      × (signed_text w ≡ some (shown ++ (0 ∷ behind)))
      × NoNul shown
      × (length shown < 2 ^ 32)
unfolding signed_text
signed_text-Signed w h = elim (Bool-cases (ltb w (2 ^ 31))) [
  | inl low ↦
      let positive : neg32 w ≡ false = ground arith in
      let c = itoa-Converted 10 w h (omega arith) (omega arith) in
      (
        c.shown,
        c.behind,
        record { numeral = c.shown; magnitude = rw low (c.is_numeral); sign = rw low },
        rw (positive, c.run),
        c.plain_text,
        omega (arith, c.short),
      )
  | inr high ↦
      let negative : neg32 w ≡ true = ground arith in
      let m : ℕ = 2 ^ 32 - w in
      let e : sub32 0 w ≡ m = ground arith in
      let c = itoa-Converted 10 m (ground arith) (omega arith) (omega arith) in
      (
        b'-' ∷ c.shown,
        c.behind,
        record { numeral = c.shown; magnitude = rw high (c.is_numeral); sign = rw high },
        signed_text-negative w m c negative e,
        ((λ e. absurd (omega arith)), c.plain_text),
        omega (arith, c.short),
      )
]
