-- ===== src/Idt/Gates.antt =====
-- What `init_idt` of student-distrib/idt.c leaves in each of the 256 gates.
use apoll_os.Prelude.{
  ℕ, zero, suc, ◌+◌, ◌≤◌, ◌<◌, ◌≡◌, refl, sym, ap, ◌∙◌, ◌⊎◌, inl, inr, arith, Option, none, some,
  List, [], ◌∷◌, ◌==◌, if◌then◌else◌, Bool-cases, length, get_elem?, set, All, length-set,
  get_elem?-in, lt_of_get_elem?, get_elem?-set_self, get_elem?-set_ne, store-set,
}
use mathlib.Core.Path.{subst}
use apoll_os.Idt.{Gate, Handler, set_offset, gate_round, gate_loop, set_entries}

module _ (address : Handler → ℕ) where
  -- The loop changes the gates from `i` up to `i + n`, each by its own round.
  pub record Rounds (n i : ℕ) (idt out : List Gate) : Type 0 where
    pub same_size : length out ≡ length idt
    pub inside :
        (v : ℕ) (g : Gate)
        → i ≤ v
        → v < i + n
        → get_elem? idt v ≡ some g
        → get_elem? out v ≡ some (gate_round address v g)
    pub outside : (v : ℕ) → (v < i) ⊎ (i + n ≤ v) → get_elem? out v ≡ get_elem? idt v

  Rounds-step :
      (n i : ℕ) (idt out : List Gate) (g : Gate)
      → get_elem? idt i ≡ some g
      → Rounds n (i + 1) (set idt i (gate_round address i g)) out
      → Rounds (suc n) i idt out
  Rounds-step n i idt out g at r =
      let new = gate_round address i g in
      let room = lt_of_get_elem? idt i g at in
      record {
        same_size = r.same_size ∙ length-set idt i new;
        inside = λ v h lo hi here. elim (Bool-cases (i == v)) [
          | inl e ↦
              let same : i ≡ v = ground arith in
              let gate : g ≡ h = cc in
              subst (λ t. get_elem? out t ≡ some (gate_round address t h)) same
                (subst (λ t. get_elem? out i ≡ some (gate_round address i t)) gate
                  (r.outside i (inl (omega arith)) ∙ get_elem?-set_self idt i new room))
          | inr e ↦
              r.inside v h (ground arith) (omega arith)
                (get_elem?-set_ne idt i v new (ground arith) ∙ here)
        ];
        outside = λ v h.
            r.outside v (elim h [ inl lo ↦ inl (omega arith) | inr hi ↦ inr (omega arith) ])
            ∙ get_elem?-set_ne idt i v new
                (λ e. absurd (elim h [ inl lo ↦ omega arith | inr hi ↦ omega arith ]));
      }

  pub gate_loop-Rounds :
      (n i : ℕ) (idt : List Gate)
      → i + n ≤ length idt
      → (out : List Gate) × (gate_loop address n i idt ≡ some out) × Rounds n i idt out
  unfolding gate_loop
  gate_loop-Rounds zero i idt room = (
    idt,
    refl,
    record {
      same_size = refl;
      inside = λ v g lo hi at. absurd (omega arith);
      outside = λ v h. refl;
    },
  )
  gate_loop-Rounds (suc n) i idt room =
      let (g, at) = get_elem?-in idt i (omega arith) in
      let (out, run, r) =
        gate_loop-Rounds n (i + 1) (set idt i (gate_round address i g))
          (omega (arith, length-set idt i (gate_round address i g))) in
      (
        out,
        rw (at, store-set idt i (gate_round address i g) (omega arith)) run,
        Rounds-step n i idt out g at r,
      )

  -- The handler that the last of the assignments to a vector names, or `h`.
  abbrev pub last_handler : List (ℕ × Handler) → ℕ → Option Handler → Option Handler
  last_handler [] v h = h
  last_handler ((u, h') ∷ es) v h = last_handler es v (if u == v then some h' else h)

  -- A gate that leads to a handler, if one is given.
  abbrev pub led : Option Handler → Gate → Gate
  led none g = g
  led (some h) g = set_offset (address h) g

  pub set_entries_lem :
      (es : List (ℕ × Handler)) (idt : List Gate)
      → All (λ (e : ℕ × Handler). e.0 < length idt) es
      → (out : List Gate) × (set_entries address es idt ≡ some out)
        × ((v : ℕ) (g : Gate) (h : Option Handler)
            → get_elem? idt v ≡ some (led h g)
            → get_elem? out v ≡ some (led (last_handler es v h) g))
  unfolding set_entries
  set_entries_lem [] idt room = (idt, refl, λ v g h at. at)
  set_entries_lem ((u, h') ∷ es) idt room =
      let (old, at) = get_elem?-in idt u room.0 in
      let new = set_offset (address h') old in
      let size = length-set idt u new in
      let (out, run, all) =
        set_entries_lem es (set idt u new)
          (subst (λ n. All (λ (e : ℕ × Handler). e.0 < n) es) (sym size) room.1) in
      (
        out,
        rw (at, store-set idt u new room.0) run,
        λ v g h here. all v g (if u == v then some h' else h) (elim (Bool-cases (u == v)) [
          | inl e ↦
              let same : u ≡ v = ground arith in
              let gate : old ≡ led h g = cc in
              let led_again : set_offset (address h') (led h g) ≡ set_offset (address h') g =
                led_twice h' h g in
              rw e (
                subst (λ t. get_elem? (set idt u new) t ≡ some (set_offset (address h') g)) same
                  (get_elem?-set_self idt u new room.0
                    ∙ ap (λ t. some (set_offset (address h') t)) gate
                    ∙ ap some led_again))
          | inr e ↦ rw e (get_elem?-set_ne idt u v new (ground arith) ∙ here)
        ]),
      )
    where
      led_twice :
          (a : Handler) (h : Option Handler) (g : Gate)
          → set_offset (address a) (led h g) ≡ set_offset (address a) g
      led_twice a none g = refl
      led_twice a (some h) g = refl
