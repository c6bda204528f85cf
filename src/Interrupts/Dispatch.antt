-- ===== src/Interrupts/Dispatch.antt =====
-- Registration and dispatch together, and the divisor of the timer.
use os_implement.Prelude.{
  ℕ, ◌+◌, ◌*◌, ◌/◌, ◌%◌, ◌^◌, ◌≤◌, ◌<◌, ◌≡◌, inl, inr, bit_and, Option, none, some, List, [], ◌∷◌,
  ◌++◌, ◌==◌, leb, if◌then◌else◌, arith, length, length-set, get_elem?-set_self, get_elem?-set_ne,
  ==_iff, ==_refl, ==_ne, Bool-cases,
}
use native.Mathlib.Nat.{div-add-mod}
use os_implement.Prelude.Mask.{bit_and-mask}
use os_implement.Interrupts.{
  out, run, unhandled, handler_at, register_interrupt_handler, isr_handler, irq_handler, init_timer,
  irq0,
}

module _ {H : Type 0} (handlers : List (Option H)) where
  pub length-register :
      (n : ℕ) (h : H) → length (register_interrupt_handler n h handlers) ≡ length handlers
  unfolding register_interrupt_handler
  length-register n h = length-set handlers n (some h)

  pub handler_at-register :
      (n m : ℕ) (h : H)
      → n < length handlers
      → handler_at (register_interrupt_handler n h handlers) m
        ≡ (if m == n then some h else handler_at handlers m)
  unfolding register_interrupt_handler
  handler_at-register n m h inside = elim (Bool-cases (m == n)) [
    | inl e ↦
        let e' : m ≡ n = (==_iff m n).0 e in
        rw (e', ==_refl n, get_elem?-set_self handlers n (some h) inside, handler_at)
    | inr d ↦ rw (d, handler_at, get_elem?-set_ne handlers n m (some h) (ground arith))
  ]

  -- A hardware interrupt is acknowledged at the first controller, and before that at the second
  -- one if it is IRQ8 or above; then the handler registered last for it runs, and a number without
  -- a handler runs nothing. A processor interrupt runs its handler alone, or is reported.
  pub dispatch-register :
      (n m : ℕ) (h : H)
      → n < length handlers
      → let after = register_interrupt_handler n h handlers in
        let found = (if m == n then some h else handler_at handlers m) in
        (irq_handler after m
          ≡ (if leb 40 m then out 0xa0 0x20 ∷ out 0x20 0x20 ∷ [] else out 0x20 0x20 ∷ [])
            ++ elim found [ some g ↦ run g ∷ [] | none ↦ [] ])
        × (isr_handler after m ≡ elim found [ some g ↦ run g ∷ [] | none ↦ unhandled m ∷ [] ])
  unfolding irq_handler isr_handler
  dispatch-register n m h inside =
      let e = handler_at-register n m h inside in (ground (arith, e), ground (arith, e))

  -- From 19 ticks a second on, the two bytes sent to the timer make up the divisor of its clock,
  -- low byte first, and the callback is registered for IRQ0.
  pub init_timer-divisor :
      (f : ℕ) (callback : H)
      → 19 ≤ f
      → (low high : ℕ) × (init_timer f callback handlers
          ≡ some (
            register_interrupt_handler irq0 callback handlers,
            (0x43, 0x36) ∷ (0x40, low) ∷ (0x40, high) ∷ [],
          ))
        × (low + 256 * high ≡ 1193180 / f)
        × (low < 256)
        × (high < 256)
  unfolding init_timer
  init_timer-divisor f callback h =
      let d = 1193180 / f in
      let few : 19 * d ≤ f * d = grind arith in
      let small : d < 65536 = omega (arith, div-add-mod 1193180 f) in
      (
        bit_and d 0xff % 2 ^ 8,
        bit_and (d / 2 ^ 8) 0xff % 2 ^ 8,
        rw (==_ne f 0 (omega arith)),
        omega (arith, bit_and-mask 8 d, bit_and-mask 8 (d / 2 ^ 8)),
        omega arith,
        omega arith,
      )
