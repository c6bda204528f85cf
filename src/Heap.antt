-- ===== src/Heap.antt =====
-- The kernel heap of src/kheap.c: blocks and holes in memory, each with a header of 12 bytes before it
-- and a footer of 8 bytes at its end, and the index of holes. The words of the index are kept apart
-- from the other memory. `none` is a panic, or an access outside of the index or through NULL. The memory
-- of a page table that `expand` makes is not taken from the heap here: as in Paging, the physical address
-- of a table is given.
pub mod Bytes
pub mod Search
pub mod Blocks
pub mod New
pub mod Expand
pub mod Create
pub mod Step
pub mod Place
pub mod Aligned
pub mod Layout
mod Tests
use os_implement.Prelude.{
  ℕ, zero, suc, ◌+◌, ◌-◌, ◌*◌, ◌/◌, ◌%◌, ◌^◌, bit_and, Bool, true, false, not, ◌&&◌, ◌||◌, Option,
  none, some, List, [], ◌∷◌, ◌==◌, ltb, leb, if◌then◌else◌, ◌>>=◌,
}
use os_implement.Frames.{alloc_frame, free_frame}
use os_implement.Paging.{PageDir, Vm, Slot, get_page, at_slot}
use os_implement.SortedArray.{
  SortedArray, place_sorted_array, insert_sorted_array, find_sorted_array, remove_sorted_array,
}
use Bytes.{Memory, load8, store8, load32, store32}

abbrev pub heap_index_size : ℕ
heap_index_size = 0x20000

abbrev pub heap_magic : ℕ
heap_magic = 0x123890ab

abbrev pub heap_min_size : ℕ
heap_min_size = 0x70000

-- `heap_t`, the memory, and the paging of the kernel, with the physical addresses of its tables.
pub record Heap : Type 0 where
  pub index : SortedArray
  pub start_address : ℕ
  pub end_address : ℕ
  pub max_address : ℕ
  pub supervisor : ℕ
  pub readonly : ℕ
  pub memory : Memory
  pub table_phy : ℕ → ℕ
  pub vm_page_dir : PageDir
  pub vm : Vm

-- a - b on 32 bits
abbrev pub sub32 : ℕ → ℕ → ℕ
sub32 a b = (a + 2 ^ 32 - b) % 2 ^ 32

abbrev pub add32 : ℕ → ℕ → ℕ
add32 a b = (a + b) % 2 ^ 32

-- The fields of `header_t` and `footer_t`.
abbrev pub is_hole_at : Memory → ℕ → ℕ
is_hole_at m header = load8 m header

abbrev pub magic_at : Memory → ℕ → ℕ
magic_at m header = load32 m (header + 4)

abbrev pub size_at : Memory → ℕ → ℕ
size_at m header = load32 m (header + 8)

abbrev pub header_at : Memory → ℕ → ℕ
header_at m footer = load32 m (footer + 4)

-- The three writes of a header, and the two of a footer.
unfoldable pub put_header : ℕ → ℕ → ℕ → Memory → Memory
put_header hole size header m =
    store32 (store8 (store32 m (header + 4) heap_magic) header hole) (header + 8) size

unfoldable pub put_footer : ℕ → ℕ → Memory → Memory
put_footer header footer m = store32 (store32 m footer heap_magic) (footer + 4) header

-- The usable size of a hole for an aligned block: `& 0x00000FFF != 0` tests the lowest bit alone.
abbrev pub hole_size_canused : ℕ → ℕ → ℕ
hole_size_canused location size =
    let body = add32 location 12 in
    sub32 size (if bit_and body 1 == 0 then 0 else 0x1000 - body % 0x1000)

-- Does the hole with a header fit?
unfoldable pub fits : ℕ → ℕ → Memory → ℕ → Bool
fits size page_align memory header =
    if ltb 0 page_align
    then leb size (hole_size_canused header (size_at memory header))
    else leb size (size_at memory header)

-- The loop of `find_hole_fit_first`, with the rounds left; `none` inside for -1.
unfoldable pub find_hole : ℕ → ℕ → ℕ → ℕ → Heap → Option (Option ℕ)
find_hole zero iter size page_align s = some none
find_hole (suc rounds) iter size page_align s =
    let rest = find_hole rounds (iter + 1) size page_align s in
    do
      header ← find_sorted_array iter s.index
      if fits size page_align s.memory header then some (some iter) else rest

unfoldable pub find_hole_fit_first : ℕ → ℕ → Heap → Option (Option ℕ)
find_hole_fit_first size page_align s = find_hole s.index.size 0 size page_align s

abbrev pub header_cmp_less : Memory → ℕ → ℕ → ℕ
header_cmp_less m a b = if ltb (size_at m a) (size_at m b) then 1 else 0

-- insert_sorted_array(header, &heap->index), which compares headers in memory.
unfoldable pub insert_hole : ℕ → Heap → Option Heap
insert_hole header s = do
  index ← insert_sorted_array header (record s.index { cmp_fun = header_cmp_less s.memory })
  some (record s { index = index })

unfoldable pub create_heap : ℕ → ℕ → ℕ → ℕ → ℕ → (ℕ → ℕ) → Memory → PageDir → Vm → Option Heap
unfolding insert_hole put_header
create_heap start end max supervisor readonly table_phy memory vm_page_dir vm =
    let body = add32 start (4 * heap_index_size) in
    let start' = if bit_and body 1 == 0 then body else add32 (bit_and body 0xffff_f000) 0x2000 in
    insert_hole start' (record {
      index = place_sorted_array heap_index_size (header_cmp_less memory);
      start_address = start';
      end_address = end;
      max_address = max;
      supervisor = supervisor;
      readonly = readonly;
      memory = put_header 1 (sub32 end start') start' memory;
      table_phy = table_phy;
      vm_page_dir = vm_page_dir;
      vm = vm;
    })

-- The rounding of `expand` and `contract`, whose test is for the lowest bit.
abbrev pub round_size : ℕ → ℕ
round_size size = if bit_and size 1 == 0 then size else add32 (bit_and size 0xffff_f000) 0x1000

-- get_page(addr, make, vm_page_dir), which is not NULL.
unfoldable pub heap_page : ℕ → Bool → Heap → Option (Slot × Heap)
heap_page addr make s = do
  (found, dir, vm) ← get_page s.table_phy addr make s.vm_page_dir s.vm
  slot ← found
  some (slot, record s { vm_page_dir = dir; vm = vm })

-- The loop of `expand`; fuel runs out only where i wraps around.
unfoldable pub expand_loop : ℕ → ℕ → ℕ → Heap → Option Heap
expand_loop zero i new_size s = none
expand_loop (suc fuel) i new_size s = elim (ltb i new_size) [
  | false ↦ some s
  | true ↦ do
    (slot, s') ← heap_page (add32 s.start_address i) true s
    vm ←
        at_slot
          (λ page.
            alloc_frame page (if s.supervisor == 0 then 0 else 1)
              (if s.readonly == 0 then 1 else 0))
          slot s'.vm
    expand_loop fuel (add32 i 0x1000) new_size (record s' { vm = vm })
]

unfoldable pub expand : ℕ → Heap → Option Heap
unfolding expand_loop
expand new_size s = do
  s' ← expand_loop (2 ^ 20 + 1) (sub32 s.end_address s.start_address) (round_size new_size) s
  some (record s' { end_address = add32 s.start_address (round_size new_size) })

unfoldable pub contract_loop : ℕ → ℕ → ℕ → Heap → Option Heap
contract_loop zero i new_size s = none
contract_loop (suc fuel) i new_size s = elim (ltb new_size i) [
  | false ↦ some s
  | true ↦ do
    (slot, s') ← heap_page (add32 s.start_address i) false s
    vm ← at_slot free_frame slot s'.vm
    contract_loop fuel (sub32 i 0x1000) new_size (record s' { vm = vm })
]

unfoldable pub contract : ℕ → Heap → Option (ℕ × Heap)
unfolding contract_loop
contract new_size s =
    let rounded = round_size new_size in
    let new_size' = if ltb rounded heap_min_size then heap_min_size else rounded in
    do
      s' ←
          contract_loop (2 ^ 20 + 1) (sub32 (sub32 s.end_address s.start_address) 0x1000) new_size'
            s
      some (new_size', record s' { end_address = add32 s.start_address new_size' })
