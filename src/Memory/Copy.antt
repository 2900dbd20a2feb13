-- ===== src/Memory/Copy.antt =====
-- `memcpy` and `memmove` of student-distrib/lib.c copy a block of memory, byte for byte.
use apoll_os.Prelude.{
  ℕ, zero, suc, ◌+◌, ◌-◌, ◌≤◌, ◌<◌, ◌≡◌, refl, sym, ap, ◌∙◌, ◌⊎◌, inl, inr, arith, Option, some,
  List, ltb, Bool-cases, length, get_elem?, set, length-set, get_elem?-in, get_elem?-set_self,
  get_elem?-set_ne, store-set,
}
use mathlib.Core.Path.{subst}
use apoll_os.Memory.{movsb, move_up}

-- `out` is `mem` with the `n` bytes from `dst` on replaced by those that stood from `src` on.
pub record Copied (n dst src : ℕ) (mem out : List ℕ) : Type 0 where
  pub size : length out ≡ length mem
  pub inside : (i : ℕ) → i < n → get_elem? out (dst + i) ≡ get_elem? mem (src + i)
  pub outside : (j : ℕ) → (j < dst) ⊎ (dst + n ≤ j) → get_elem? out j ≡ get_elem? mem j

-- The step does not fault, and copies.
abbrev pub Copies : ℕ → ℕ → ℕ → List ℕ → Option (List ℕ) → Type 0
Copies n dst src mem o = (out : List ℕ) × (o ≡ some out) × Copied n dst src mem out

pub Copied-none : (dst src : ℕ) (mem : List ℕ) → Copied 0 dst src mem mem
Copied-none dst src mem = record {
  size = refl;
  inside = λ i h. absurd (omega arith);
  outside = λ j h. refl;
}

pub le_or_lt : (a b : ℕ) → (a < b) ⊎ (b ≤ a)
le_or_lt a b = elim (Bool-cases (ltb a b)) [
  | inl e ↦ inl (ground arith)
  | inr e ↦ inr (ground arith)
]

-- One more byte that was loaded before anything was stored.
pub Copied-store :
    (n dst src : ℕ) (mem mid : List ℕ) (b : ℕ)
    → Copied n dst src mem mid
    → get_elem? mem (src + n) ≡ some b
    → dst + n < length mem
    → Copied (n + 1) dst src mem (set mid (dst + n) b)
Copied-store n dst src mem mid b c at room = record {
  size = length-set mid (dst + n) b ∙ c.size;
  inside = λ i h. elim (le_or_lt i n) [
    | inl lo ↦
        get_elem?-set_ne mid (dst + n) (dst + i) b (λ e. absurd (omega arith)) ∙ c.inside i lo
    | inr hi ↦
        let e : i ≡ n = omega arith in
        subst (λ t. get_elem? (set mid (dst + n) b) (dst + t) ≡ get_elem? mem (src + t)) (sym e)
          (get_elem?-set_self mid (dst + n) b (omega (arith, c.size)) ∙ sym at)
  ];
  outside = λ j h.
      get_elem?-set_ne mid (dst + n) j b
        (λ e. absurd (elim h [ inl lo ↦ omega arith | inr hi ↦ omega arith ]))
      ∙ c.outside j (elim h [ inl lo ↦ inl lo | inr hi ↦ inr (omega arith) ]);
}

-- Two blocks, the upper one second, where the first does not write to the second's source.
pub Copied-above :
    (m n dst src : ℕ) (mem mid out : List ℕ)
    → (dst ≤ src) ⊎ (src + (m + n) ≤ dst)
    → Copied m dst src mem mid
    → Copied n (dst + m) (src + m) mid out
    → Copied (m + n) dst src mem out
Copied-above m n dst src mem mid out apart a b = record {
  size = b.size ∙ a.size;
  inside = λ i h. elim (le_or_lt i m) [
    | inl lo ↦ b.outside (dst + i) (inl (omega arith)) ∙ a.inside i lo
    | inr hi ↦
        let k = i - m in
        let to : dst + i ≡ dst + m + k = omega arith in
        let from : src + m + k ≡ src + i = omega arith in
        ap (get_elem? out) to
        ∙ b.inside k (omega arith)
        ∙ a.outside (src + m + k)
            (elim apart [ inl up ↦ inr (omega arith) | inr off ↦ inl (omega arith) ])
        ∙ ap (get_elem? mem) from
  ];
  outside = λ j h.
      b.outside j (elim h [ inl lo ↦ inl (omega arith) | inr hi ↦ inr (omega arith) ])
      ∙ a.outside j (elim h [ inl lo ↦ inl lo | inr hi ↦ inr (omega arith) ]);
}

-- Two blocks, the lower one second.
pub Copied-below :
    (m n dst src : ℕ) (mem mid out : List ℕ)
    → src ≤ dst
    → Copied m (dst + n) (src + n) mem mid
    → Copied n dst src mid out
    → Copied (n + m) dst src mem out
Copied-below m n dst src mem mid out down a b = record {
  size = b.size ∙ a.size;
  inside = λ i h. elim (le_or_lt i n) [
    | inl lo ↦ b.inside i lo ∙ a.outside (src + i) (inl (omega arith))
    | inr hi ↦
        let k = i - n in
        let to : dst + i ≡ dst + n + k = omega arith in
        let from : src + n + k ≡ src + i = omega arith in
        b.outside (dst + i) (inr (omega arith))
        ∙ ap (get_elem? mid) to
        ∙ a.inside k (omega arith)
        ∙ ap (get_elem? mem) from
  ];
  outside = λ j h.
      b.outside j (elim h [ inl lo ↦ inl lo | inr hi ↦ inr (omega arith) ])
      ∙ a.outside j (elim h [ inl lo ↦ inl (omega arith) | inr hi ↦ inr (omega arith) ]);
}

pub movsb-Copies :
    (dst src : ℕ) (mem : List ℕ)
    → dst < length mem
    → src < length mem
    → Copies 1 dst src mem (movsb dst src mem)
unfolding movsb
movsb-Copies dst src mem hd hs =
    let (b, at) = get_elem?-in mem src hs in
    (
      set mem dst b,
      rw (at, store-set mem dst b hd),
      subst (λ t. Copied 1 dst src mem (set mem t b)) (zero_more dst)
          (Copied-store 0 dst src mem mem b (Copied-none dst src mem)
            (ap (get_elem? mem) (zero_more src) ∙ at) (omega arith)),
    )
  where
    zero_more : (n : ℕ) → n + 0 ≡ n
    zero_more n = omega arith

-- The block fits into memory, and a copy upwards is safe for it.
abbrev pub Fits : ℕ → ℕ → ℕ → List ℕ → Type 0
Fits n dst src mem =
    (dst + n ≤ length mem) × (src + n ≤ length mem) × ((dst ≤ src) ⊎ (src + n ≤ dst))

pub move_up-Copies :
    (n dst src : ℕ) (mem : List ℕ)
    → Fits n dst src mem
    → Copies n dst src mem (move_up n dst src mem)
unfolding move_up
move_up-Copies zero dst src mem (hd, hs, apart) = (mem, refl, Copied-none dst src mem)
move_up-Copies (suc n) dst src mem (hd, hs, apart) =
    let (mid, first, a) = movsb-Copies dst src mem (omega arith) (omega arith) in
    let safe : (dst + 1 ≤ src + 1) ⊎ (src + 1 + n ≤ dst + 1) = elim apart [
      | inl up ↦ inl (omega arith)
      | inr off ↦ inr (omega arith)
    ] in
    let (out, rest, b) =
      move_up-Copies n (dst + 1) (src + 1) mid
        (omega (arith, a.size), omega (arith, a.size), safe) in
    let e : 1 + n ≡ suc n = omega arith in
    let apart' : (dst ≤ src) ⊎ (src + (1 + n) ≤ dst) = elim apart [
      | inl up ↦ inl up
      | inr off ↦ inr (omega arith)
    ] in
    (
      out,
      rw first rest,
      subst (λ t. Copied t dst src mem out) e (Copied-above 1 n dst src mem mid out apart' a b),
    )
