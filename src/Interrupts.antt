-- ===== src/Interrupts.antt =====
-- The dispatch of interrupts in src/isr.c and the programming of the timer in src/timer.c. Handlers
-- are values of any type; what the code does is the list of its effects, in order. Interrupt numbers
-- are places of the table: there is nothing to read or to write behind its 256 entries.
pub mod Dispatch
mod Tests
use os_implement.Prelude.{
  ℕ, ◌/◌, ◌%◌, ◌^◌, bit_and, Option, none, some, List, [], ◌∷◌, ◌++◌, ◌==◌, ltb, if◌then◌else◌,
  get_elem?, set,
}

-- IRQ0
abbrev pub irq0 : ℕ
irq0 = 32

pub data Effect (H : Type 0) : Type 0 where
  out : ℕ → ℕ → Effect H
  run : H → Effect H
  unhandled : ℕ → Effect H

module _ {H : Type 0} where
  -- interrupt_handler[n], with NULL as `none`.
  abbrev pub handler_at : List (Option H) → ℕ → Option H
  handler_at handlers n = elim (get_elem? handlers n) [ none ↦ none | some h ↦ h ]

  unfoldable pub register_interrupt_handler : ℕ → H → List (Option H) → List (Option H)
  register_interrupt_handler n handler handlers = set handlers n (some handler)

  unfoldable pub isr_handler : List (Option H) → ℕ → List (Effect H)
  isr_handler handlers int_no = elim (handler_at handlers int_no) [
    | some h ↦ run h ∷ []
    | none ↦ unhandled int_no ∷ []
  ]

  unfoldable pub irq_handler : List (Option H) → ℕ → List (Effect H)
  irq_handler handlers int_no =
      (if ltb 39 int_no then out 0xa0 0x20 ∷ [] else [])
      ++ (out 0x20 0x20 ∷ [])
      ++ elim (handler_at handlers int_no) [ some h ↦ run h ∷ [] | none ↦ [] ]

  -- `init_timer`, with the handler table and the bytes sent; `none` is the division by zero.
  unfoldable pub init_timer : ℕ → H → List (Option H) → Option (List (Option H) × List (ℕ × ℕ))
  unfolding register_interrupt_handler
  init_timer f timer_callback handlers =
      let divisor = 1193180 / f in
      let handlers' = register_interrupt_handler irq0 timer_callback handlers in
      let low = bit_and divisor 0xff % 2 ^ 8 in
      let high = bit_and (divisor / 2 ^ 8) 0xff % 2 ^ 8 in
      if f == 0 then none else some (handlers', (0x43, 0x36) ∷ (0x40, low) ∷ (0x40, high) ∷ [])
