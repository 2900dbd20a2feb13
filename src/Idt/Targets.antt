-- ===== src/Idt/Targets.antt =====
-- Where the gates lead that `init_idt` of student-distrib/idt.c makes.
use apoll_os.Prelude.{
  ℕ, ◌+◌, ◌*◌, ◌/◌, ◌%◌, ◌^◌, ◌≤◌, ◌<◌, ◌≡◌, refl, sym, ap, ◌∙◌, inl, inr, arith, Bool, true, false,
  not, ◌&&◌, ◌||◌, Option, none, some, List, ltb, leb, ◌==◌, if◌then◌else◌, Bool-cases, length,
  get_elem?, All, lt_of_get_elem?, all_below, all_below_sound,
}
use mathlib.Core.Path.{subst}
use apoll_os.Idt.{Gate, Handler, ex_generic, set_bits, gate_round, entries, init_idt}
use apoll_os.Idt.Gates.{gate_loop-Rounds, set_entries_lem, last_handler, led}

-- The address that a gate leads to.
abbrev pub offset : Gate → ℕ
offset g = g.offset_31_16 * 65536 + g.offset_15_00

-- The processor's descriptor type: 15 is a 32-bit trap gate, 14 a 32-bit interrupt gate.
abbrev pub gate_type : Gate → ℕ
gate_type g = g.size * 8 + g.reserved1 * 4 + g.reserved2 * 2 + g.reserved3

module _ (address : Handler → ℕ) (fits : (h : Handler) → address h < 2 ^ 32) where
  -- The handler that a vector is given, if it is given one.
  abbrev pub handler_for : ℕ → Option Handler
  handler_for v = last_handler address entries v (if leb 32 v then some ex_generic else none)

  -- The gate is present and is one of the kernel's code segment, only that of the system calls can
  -- be used by a program, and exceptions and system calls leave interrupts on.
  pub record IsGate (v : ℕ) (old g : Gate) : Type 0 where
    pub is_present : g.present ≡ 1
    pub selector : g.seg_selector ≡ 0x10
    pub privilege : g.dpl ≡ (if v == 0x80 then 3 else 0)
    pub kind : gate_type g ≡ (if ltb v 32 || v == 0x80 then 15 else 14)
    pub target : offset g ≡ elim (handler_for v) [ none ↦ offset old | some h ↦ address h ]

  kind_lem : (b : Bool) → 8 + 4 + 2 + (if b then 1 else 0) ≡ (if b then 15 else 14)
  kind_lem true = refl
  kind_lem false = refl

  led-IsGate :
      (v : ℕ) (old : Gate) (h : Option Handler)
      → handler_for v ≡ h
      → IsGate v old (led address h (set_bits v old))
  led-IsGate v old none e = record {
    is_present = refl;
    selector = refl;
    privilege = refl;
    kind = kind_lem (ltb v 32 || v == 0x80);
    target = rw e;
  }
  led-IsGate v old (some h) e =
      let whole : address h / 65536 % 65536 * 65536 + address h % 65536 ≡ address h =
        omega (arith, fits h) in
      record {
        is_present = refl;
        selector = refl;
        privilege = refl;
        kind = kind_lem (ltb v 32 || v == 0x80);
        target = rw e whole;
      }

  gate_round-led :
      (v : ℕ) (old : Gate)
      → gate_round address v old
        ≡ led address (if leb 32 v then some ex_generic else none) (set_bits v old)
  gate_round-led v old = elim (Bool-cases (leb 32 v)) [ inl e ↦ rw e | inr e ↦ rw e ]

  -- With handlers at 32-bit addresses and a table of 256 gates, `init_idt` makes each gate present
  -- and one of the kernel's code segment, gives only that of the system calls privilege 3, makes the
  -- gates of exceptions and system calls trap gates and the others interrupt gates, and leads each
  -- to the last handler that the code assigns to its vector, or, where it assigns none, to where it
  -- led before.
  pub init_idt-IsGate :
      (idt : List Gate) (v : ℕ) (old : Gate)
      → length idt ≡ 256
      → get_elem? idt v ≡ some old
      → (out : List Gate) × (g : Gate) × (init_idt address idt ≡ some out)
        × (get_elem? out v ≡ some g)
        × IsGate v old g
  unfolding init_idt
  init_idt-IsGate idt v old size at =
      let (mid, looped, r) = gate_loop-Rounds address 256 0 idt (omega (arith, size)) in
      let wide : length mid ≡ 256 = r.same_size ∙ size in
      let room : All (λ (e : ℕ × Handler). e.0 < length mid) entries =
        subst (λ n. All (λ (e : ℕ × Handler). e.0 < n) entries) (sym wide) (omega arith) in
      let (out, assigned, all) = set_entries_lem address entries mid room in
      let inside =
        r.inside v old (omega arith) (omega (arith, lt_of_get_elem? idt v old at, size)) at in
      (
        out,
        led address (handler_for v) (set_bits v old),
        rw (looped, assigned),
        all v (set_bits v old) (if leb 32 v then some ex_generic else none)
            (inside ∙ ap some (gate_round-led v old)),
        led-IsGate v old (handler_for v) refl,
      )

abbrev is_none : Option Handler → Bool
is_none none = true
is_none (some h) = false

abbrev same : Bool → Bool → Bool
same true b = b
same false b = not b

module _ (address : Handler → ℕ) where
  none_table :
      all_below 256 (λ v.
        same
          (is_none (last_handler address entries v (if leb 32 v then some ex_generic else none)))
          (leb 20 v && ltb v 32))
      ≡ true
  unfolding all_below
  none_table = refl

  none_of_is_none : (h : Option Handler) → is_none h ≡ true → h ≡ none
  none_of_is_none none e = refl
  none_of_is_none (some h) e = cc

  same_holds : (a b : Bool) → same a b ≡ true → b ≡ true → a ≡ true
  same_holds true b s e = refl
  same_holds false b s e = cc

  handler_for-reserved :
      (v : ℕ)
      → 20 ≤ v
      → v < 32
      → last_handler address entries v (if leb 32 v then some ex_generic else none) ≡ none
  handler_for-reserved v lo hi =
      let row = all_below_sound 256 _ v none_table (omega arith) in
      let between : (leb 20 v && ltb v 32) ≡ true = ground arith in
      none_of_is_none (last_handler address entries v (if leb 32 v then some ex_generic else none))
        (same_holds
          (is_none (last_handler address entries v (if leb 32 v then some ex_generic else none)))
          (leb 20 v && ltb v 32) row between)

  -- With handlers at 32-bit addresses and a table of 256 gates, `init_idt` marks the gates of the
  -- vectors 0x14 to 0x1f as present but does not set where they lead.
  pub init_idt-reserved :
      (fits : (h : Handler) → address h < 2 ^ 32) (idt : List Gate) (v : ℕ) (old : Gate)
      → length idt ≡ 256
      → get_elem? idt v ≡ some old
      → 20 ≤ v
      → v < 32
      → (out : List Gate) × (g : Gate) × (init_idt address idt ≡ some out)
        × (get_elem? out v ≡ some g)
        × (g.present ≡ 1)
        × (offset g ≡ offset old)
  init_idt-reserved fits idt v old size at lo hi =
      let (out, g, run, here, gate) = init_idt-IsGate address fits idt v old size at in
      (
        out,
        g,
        run,
        here,
        gate.is_present,
        gate.target
            ∙ ap (λ (o : Option Handler). elim o [ none ↦ offset old | some h ↦ address h ])
                (handler_for-reserved v lo hi),
      )
