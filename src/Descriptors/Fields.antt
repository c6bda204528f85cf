-- ===== src/Descriptors/Fields.antt =====
-- What the processor reads back from the fields of a descriptor.
use os_implement.Prelude.{
  ℕ, zero, suc, ◌+◌, ◌*◌, ◌/◌, ◌%◌, ◌^◌, ◌≤◌, ◌<◌, ◌≡◌, inl, inr, refl, ap, ◌∙◌, bit_and, bit_or,
  Bool, true, ◌&&◌, some, ◌==◌, ltb, leb, if◌then◌else◌, arith, length, set, replicate, get_elem?,
  get_elem?-set_self, get_elem?-set_ne, get_elem?-replicate, length-set, ==_iff, Bool-cases,
}
use os_implement.Prelude.Bits.{all_below, all_below2_sound}
use os_implement.Prelude.Mask.{bit_and-mask}
use os_implement.Descriptors.{
  GdtEntry, IdtEntry, Tables, gdt_entry_of, idt_entry_of, idt_set, idt_set_stubs, idt_init,
  zero_entry, init_descriptor_tables,
}

-- The base, the 20-bit limit and the flags of a segment descriptor.
abbrev pub segment_base : GdtEntry → ℕ
segment_base e = e.base_low + e.base_middle * 2 ^ 16 + e.base_high * 2 ^ 24

abbrev pub segment_limit : GdtEntry → ℕ
segment_limit e = e.limit_low + e.granularity % 16 * 2 ^ 16

abbrev pub segment_flags : GdtEntry → ℕ
segment_flags e = e.granularity / 16

-- The offset of an interrupt gate.
abbrev pub gate_offset : IdtEntry → ℕ
gate_offset e = e.base_low + e.base_high * 2 ^ 16

gran_row : ℕ → ℕ → Bool
gran_row lo gran = bit_or (lo % 2 ^ 8) (bit_and gran 0xf0) % 2 ^ 8 == lo + gran / 16 * 16

gran_table : all_below 16 (λ lo. all_below 256 (gran_row lo)) ≡ true
unfolding all_below gran_row
gran_table = refl

gran_lem :
    (lo gran : ℕ)
    → lo < 16
    → gran < 256
    → bit_or (lo % 2 ^ 8) (bit_and gran 0xf0) % 2 ^ 8 ≡ lo + gran / 16 * 16
unfolding gran_row
gran_lem lo gran h k = (==_iff _ _).0 (all_below2_sound 16 256 gran_row lo gran gran_table h k)

-- The entry that `gdt_set` writes stands for its base, for the low 20 bits of its limit, and for
-- its access byte and the high half of its granularity byte.
pub gdt_entry_of-fields :
    (base limit access gran : ℕ)
    → base < 2 ^ 32
    → gran < 256
    → let e = gdt_entry_of base limit access gran in
      (segment_base e ≡ base)
      × (segment_limit e ≡ limit % 2 ^ 20)
      × (segment_flags e ≡ gran / 16)
      × (e.access ≡ access)
unfolding gdt_entry_of
gdt_entry_of-fields base limit access gran h k =
    let m = bit_and-mask 16 base in
    let m' = bit_and-mask 16 (base / 2 ^ 16) in
    let m'' = bit_and-mask 8 (base / 2 ^ 24) in
    let l = bit_and-mask 16 limit in
    let l' = bit_and-mask 4 (limit / 2 ^ 16) in
    let g = gran_lem (bit_and (limit / 2 ^ 16) 0x0f) gran (omega arith) k in
    (omega arith, omega arith, omega arith, refl)

-- The gate that `idt_set` writes stands for the address of its handler.
pub idt_entry_of-offset :
    (base selector flags : ℕ)
    → base < 2 ^ 32
    → gate_offset (idt_entry_of base selector flags) ≡ base
unfolding idt_entry_of
idt_entry_of-offset base selector flags h =
    omega (arith, bit_and-mask 16 base, bit_and-mask 16 (base / 2 ^ 16))

-- The calls for the vectors from i to i + n - 1 write those and no others.
idt_set_stubs-entries :
    (stub : ℕ → ℕ) (n i j : ℕ) (t : Tables)
    → i + n ≤ length t.idt_entry
    → get_elem? (idt_set_stubs stub n i t).idt_entry j ≡ (
        if leb i j && ltb j (i + n)
        then some (idt_entry_of (stub j) 0x08 0x8e)
        else get_elem? t.idt_entry j)
unfolding idt_set_stubs idt_set
idt_set_stubs-entries stub zero i j t h = ground arith
idt_set_stubs-entries stub (suc n) i j t h =
    let e = idt_entry_of (stub i) 0x08 0x8e in
    let ih =
      idt_set_stubs-entries stub n (i + 1) j (record t { idt_entry = set t.idt_entry i e })
        (omega (arith, length-set t.idt_entry i e)) in
    elim (Bool-cases (j == i)) [
      | inl s ↦
          let s' : j ≡ i = (==_iff j i).0 s in
          ih
          ∙ ground (
            arith,
            get_elem?-set_self t.idt_entry i e (omega arith),
            ap stub s',
            ap (get_elem? (set t.idt_entry i e)) s',
          )
      | inr d ↦ ih ∙ ground (arith, get_elem?-set_ne t.idt_entry i j e (ground arith))
    ]

-- After `init_descriptor_tables` each of the 48 first vectors leads to its stub, through the kernel
-- code segment by a present interrupt gate, and each of the other vectors of the table is zero.
pub idt_init-entries :
    (gdt_address idt_address : ℕ) (stub : ℕ → ℕ) (t : Tables) (j : ℕ)
    → stub j < 2 ^ 32
    → j < 256
    → (e : IdtEntry) × (get_elem?
          (init_descriptor_tables gdt_address idt_address stub t).idt_entry
          j
        ≡ some e)
      × (gate_offset e ≡ (if ltb j 48 then stub j else 0))
      × (e.seg_selector ≡ (if ltb j 48 then 0x08 else 0))
      × (e.flags ≡ (if ltb j 48 then 0x8e else 0))
unfolding init_descriptor_tables idt_init
idt_init-entries gdt_address idt_address stub t j small h = (
  if ltb j 48 then idt_entry_of (stub j) 0x08 0x8e else zero_entry,
  idt_set_stubs-entries stub 48 0 j _ (omega arith) ∙ ground (arith, rest),
  ground (arith, idt_entry_of-offset (stub j) 0x08 0x8e small),
  unfold idt_entry_of in ground arith,
  unfold idt_entry_of in ground arith,
)
  where
    rest : get_elem? (replicate 256 zero_entry) j ≡ some zero_entry
    rest = get_elem?-replicate 256 j zero_entry h
