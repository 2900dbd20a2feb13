-- ===== src/Memory/Fill.antt =====
-- Blocks of memory that are set to one byte, and the byte loop of `memset` in student-distrib/lib.c.
use apoll_os.Prelude.{
  ℕ, zero, suc, ◌+◌, ◌-◌, ◌≤◌, ◌<◌, ◌≡◌, refl, ap, ◌∙◌, ◌⊎◌, inl, inr, arith, Option, some, List,
  length, get_elem?, set, length-set, get_elem?-set_self, get_elem?-set_ne, store-set, store, ◌>>=◌,
}
use mathlib.Core.Path.{subst}
use apoll_os.Memory.{memset_bottom}
use apoll_os.Memory.Copy.{le_or_lt}

-- `out` is `mem` with the `n` bytes from `dst` on set to `c`.
pub record Filled (c n dst : ℕ) (mem out : List ℕ) : Type 0 where
  pub size : length out ≡ length mem
  pub inside : (i : ℕ) → i < n → get_elem? out (dst + i) ≡ some c
  pub outside : (j : ℕ) → (j < dst) ⊎ (dst + n ≤ j) → get_elem? out j ≡ get_elem? mem j

-- The step does not fault, and fills.
abbrev pub Fills : ℕ → ℕ → ℕ → List ℕ → Option (List ℕ) → Type 0
Fills c n dst mem o = (out : List ℕ) × (o ≡ some out) × Filled c n dst mem out

pub Filled-none : (c dst : ℕ) (mem : List ℕ) → Filled c 0 dst mem mem
Filled-none c dst mem = record {
  size = refl;
  inside = λ i h. absurd (omega arith);
  outside = λ j h. refl;
}

pub Filled-one : (c dst : ℕ) (mem : List ℕ) → dst < length mem → Filled c 1 dst mem (set mem dst c)
Filled-one c dst mem room = record {
  size = length-set mem dst c;
  inside = λ i h.
      let e : dst + i ≡ dst = omega arith in
      ap (get_elem? (set mem dst c)) e ∙ get_elem?-set_self mem dst c room;
  outside = λ j h.
      get_elem?-set_ne mem dst j c
        (λ e. absurd (elim h [ inl lo ↦ omega arith | inr hi ↦ omega arith ]));
}

pub Filled-above :
    (c m n dst : ℕ) (mem mid out : List ℕ)
    → Filled c m dst mem mid
    → Filled c n (dst + m) mid out
    → Filled c (m + n) dst mem out
Filled-above c m n dst mem mid out a b = record {
  size = b.size ∙ a.size;
  inside = λ i h. elim (le_or_lt i m) [
    | inl lo ↦ b.outside (dst + i) (inl (omega arith)) ∙ a.inside i lo
    | inr hi ↦
        let to : dst + i ≡ dst + m + (i - m) = omega arith in
        ap (get_elem? out) to ∙ b.inside (i - m) (omega arith)
  ];
  outside = λ j h.
      b.outside j (elim h [ inl lo ↦ inl (omega arith) | inr hi ↦ inr (omega arith) ])
      ∙ a.outside j (elim h [ inl lo ↦ inl lo | inr hi ↦ inr (omega arith) ]);
}

-- One step of `m` bytes in front of the others.
pub Fills-step :
    (c m n dst : ℕ) (mem : List ℕ) (o : Option (List ℕ)) (next : List ℕ → Option (List ℕ))
    → Fills c m dst mem o
    → ((mid : List ℕ) → length mid ≡ length mem → Fills c n (dst + m) mid (next mid))
    → Fills c (m + n) dst mem (o >>= next)
Fills-step c m n dst mem o next (mid, first, a) then_rest =
    let (out, rest, b) = then_rest mid a.size in
    (out, rw first rest, Filled-above c m n dst mem mid out a b)

pub store-Fills :
    (c dst : ℕ) (mem : List ℕ) → dst < length mem → Fills c 1 dst mem (store mem dst c)
store-Fills c dst mem room = (set mem dst c, store-set mem dst c room, Filled-one c dst mem room)

pub memset_bottom-Fills :
    (n c dst : ℕ) (mem : List ℕ)
    → dst + n ≤ length mem
    → Fills c n dst mem (memset_bottom n dst c mem)
unfolding memset_bottom
memset_bottom-Fills zero c dst mem room = (mem, refl, Filled-none c dst mem)
memset_bottom-Fills (suc n) c dst mem room =
    let e : 1 + n ≡ suc n = omega arith in
    subst (λ t. Fills c t dst mem (store mem dst c >>= memset_bottom n (dst + 1) c)) e
      (Fills-step c 1 n dst mem (store mem dst c) (memset_bottom n (dst + 1) c)
        (store-Fills c dst mem (omega arith))
        (λ mid same. memset_bottom-Fills n c (dst + 1) mid (omega (arith, same))))
