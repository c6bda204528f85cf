-- ===== src/Descriptors.antt =====
-- The descriptor tables of src/descriptor_tables.c: the GDT with its 5 entries, the IDT with its
-- 256, and the bytes that set up the two interrupt controllers. The addresses of the tables and of
-- the stubs isr0 to isr31 and irq0 to irq15 are the linker's, and so are parameters.
pub mod Fields
mod Tests
use os_implement.Prelude.{
  ℕ, zero, suc, ◌+◌, ◌-◌, ◌*◌, ◌/◌, ◌%◌, ◌^◌, bit_and, bit_or, List, [], ◌∷◌, ◌++◌, set, replicate,
}

-- `gdt_entry_struct`: fields of 16, 16, 8, 8, 8 and 8 bits.
pub record GdtEntry : Type 0 where
  pub limit_low : ℕ
  pub base_low : ℕ
  pub base_middle : ℕ
  pub access : ℕ
  pub granularity : ℕ
  pub base_high : ℕ

-- `idt_entry_struct`: fields of 16, 16, 8, 8 and 16 bits.
pub record IdtEntry : Type 0 where
  pub base_low : ℕ
  pub seg_selector : ℕ
  pub always0 : ℕ
  pub flags : ℕ
  pub base_high : ℕ

-- `gdt_ptr` and `idt_ptr`
pub record TablePtr : Type 0 where
  pub limit : ℕ
  pub base : ℕ

pub record Tables : Type 0 where
  pub gdt_entry : List GdtEntry
  pub gdt_ptr : TablePtr
  pub idt_entry : List IdtEntry
  pub idt_ptr : TablePtr
  pub ports : List (ℕ × ℕ)

-- The entry that `gdt_set` writes; each field is cut to its width.
unfoldable pub gdt_entry_of : ℕ → ℕ → ℕ → ℕ → GdtEntry
gdt_entry_of base limit access gran = record {
  base_low = bit_and base 0xffff % 2 ^ 16;
  base_middle = bit_and (base / 2 ^ 16) 0xffff % 2 ^ 8;
  base_high = bit_and (base / 2 ^ 24) 0xff % 2 ^ 8;
  limit_low = bit_and limit 0xffff % 2 ^ 16;
  granularity = bit_or (bit_and (limit / 2 ^ 16) 0x0f % 2 ^ 8) (bit_and gran 0xf0) % 2 ^ 8;
  access = access;
}

unfoldable pub gdt_set : ℕ → ℕ → ℕ → ℕ → ℕ → Tables → Tables
unfolding gdt_entry_of
gdt_set index base limit access gran t = record t {
  gdt_entry = set t.gdt_entry index (gdt_entry_of base limit access gran);
}

-- `gdt_init`, with the address of GDT_ENTRY; `gdt_w` only loads the register.
unfoldable pub gdt_init : ℕ → Tables → Tables
unfolding gdt_set
gdt_init gdt_address t = gdt_set 4 0 0xffff_ffff 0xf2 0xcf (
    gdt_set 3 0 0xffff_ffff 0xfa 0xcf (
      gdt_set 2 0 0xffff_ffff 0x92 0xcf (
        gdt_set 1 0 0xffff_ffff 0x9a 0xcf (
          gdt_set 0 0 0 0 0
            (record t { gdt_ptr = record { limit = 5 * 8 - 1; base = gdt_address } })))))

unfoldable pub idt_entry_of : ℕ → ℕ → ℕ → IdtEntry
idt_entry_of base seg_selector flags = record {
  base_low = bit_and base 0xffff % 2 ^ 16;
  base_high = bit_and (base / 2 ^ 16) 0xffff % 2 ^ 16;
  seg_selector = seg_selector;
  flags = flags;
  always0 = 0;
}

unfoldable pub idt_set : ℕ → ℕ → ℕ → ℕ → Tables → Tables
idt_set index base seg_selector flags t = record t {
  idt_entry = set t.idt_entry index (idt_entry_of base seg_selector flags);
}

-- The `idt_set` calls for the vectors from index on, each with its stub.
unfoldable pub idt_set_stubs : (ℕ → ℕ) → ℕ → ℕ → Tables → Tables
idt_set_stubs stub zero index t = t
idt_set_stubs stub (suc calls) index t =
    idt_set_stubs stub calls (index + 1) (idt_set index (stub index) 0x08 0x8e t)

-- The bytes sent to the two 8259A controllers.
abbrev pub icw : List (ℕ × ℕ)
icw =
    (0x20, 0x11)
    ∷ (0xa0, 0x11)
    ∷ (0x21, 0x20)
    ∷ (0xa1, 0x28)
    ∷ (0x21, 0x04)
    ∷ (0xa1, 0x02)
    ∷ (0x21, 0x01)
    ∷ (0xa1, 0x01)
    ∷ (0x21, 0x0)
    ∷ (0xa1, 0x0)
    ∷ []

abbrev pub zero_entry : IdtEntry
zero_entry = record { base_low = 0; seg_selector = 0; always0 = 0; flags = 0; base_high = 0 }

-- `idt_init`: vector n < 32 gets isr n, vector n from 32 to 47 gets irq (n - 32).
unfoldable pub idt_init : ℕ → (ℕ → ℕ) → Tables → Tables
idt_init idt_address stub t = idt_set_stubs stub 48 0 (record t {
  idt_ptr = record { limit = 256 * 8 - 1; base = idt_address };
  idt_entry = replicate 256 zero_entry;
  ports = t.ports ++ icw;
})

unfoldable pub init_descriptor_tables : ℕ → ℕ → (ℕ → ℕ) → Tables → Tables
unfolding gdt_init
init_descriptor_tables gdt_address idt_address stub t =
    idt_init idt_address stub (gdt_init gdt_address t)
