-- ===== src/Interrupts/Tests.antt =====
-- Dispatch with handlers that are numbers.
use os_implement.Prelude.{
  ℕ, ◌≡◌, Option, none, some, List, [], ◌∷◌, ◌++◌, ◌==◌, leb, if◌then◌else◌, arith, replicate,
}
use os_implement.Interrupts.{
  out, run, unhandled, handler_at, register_interrupt_handler, isr_handler, irq_handler,
}
use os_implement.Interrupts.Dispatch.{dispatch-register}

abbrev handlers : List (Option ℕ)
handlers = replicate 256 none

dispatch_example :
    let after = register_interrupt_handler 44 7 handlers in
    let found = (if 44 == 44 then some 7 else handler_at handlers 44) in
    (irq_handler after 44
      ≡ (if leb 40 44 then out 0xa0 0x20 ∷ out 0x20 0x20 ∷ [] else out 0x20 0x20 ∷ [])
        ++ elim found [ some g ↦ run g ∷ [] | none ↦ [] ])
    × (isr_handler after 44 ≡ elim found [ some g ↦ run g ∷ [] | none ↦ unhandled 44 ∷ [] ])
dispatch_example = dispatch-register handlers 44 44 7 (omega arith)
