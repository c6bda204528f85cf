-- ===== src/Descriptors/Tests.antt =====
-- A segment descriptor and the table after start-up.
use os_implement.Prelude.{
  ℕ, ◌+◌, ◌*◌, ◌/◌, ◌%◌, ◌^◌, ◌≡◌, some, [], ltb, if◌then◌else◌, arith, get_elem?,
}
use os_implement.Descriptors.{IdtEntry, Tables, gdt_entry_of, init_descriptor_tables}
use os_implement.Descriptors.Fields.{
  segment_base, segment_limit, segment_flags, gate_offset, gdt_entry_of-fields, idt_init-entries,
}

gdt_entry_of_example :
    let e = gdt_entry_of 0x12345678 0xffff_ffff 0x9a 0xcf in
    (segment_base e ≡ 0x12345678)
    × (segment_limit e ≡ 0xffff_ffff % 2 ^ 20)
    × (segment_flags e ≡ 0xcf / 16)
    × (e.access ≡ 0x9a)
gdt_entry_of_example =
    gdt_entry_of-fields 0x12345678 0xffff_ffff 0x9a 0xcf (omega arith) (omega arith)

abbrev no_tables : Tables
no_tables = record {
  gdt_entry = [];
  gdt_ptr = record { limit = 0; base = 0 };
  idt_entry = [];
  idt_ptr = record { limit = 0; base = 0 };
  ports = [];
}

abbrev stub : ℕ → ℕ
stub i = 0x10_0000 + 16 * i

idt_init_example :
    (e : IdtEntry) × (get_elem? (init_descriptor_tables 0x2000 0x3000 stub no_tables).idt_entry 33
      ≡ some e)
    × (gate_offset e ≡ (if ltb 33 48 then stub 33 else 0))
    × (e.seg_selector ≡ (if ltb 33 48 then 0x08 else 0))
    × (e.flags ≡ (if ltb 33 48 then 0x8e else 0))
idt_init_example = idt_init-entries 0x2000 0x3000 stub no_tables 33 (omega arith) (omega arith)
