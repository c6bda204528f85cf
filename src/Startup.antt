-- ===== src/Startup.antt =====
-- The start of the machine: init_paging of src/page.c, which puts the frames, the page tables and the
-- heap together. What is taken from the linker, the multiboot loader and the processor is an argument;
-- `none` is a fault, or an end of the fuel.
pub mod Step
pub mod Identity
pub mod HeapPages
pub mod HeapMapped
pub mod Mapped
pub mod Switch
pub mod FirstHeap
pub mod Paged
pub mod Multitask
pub mod Main
pub mod Stages
pub mod Booted
mod Tests
use os_implement.Prelude.{
  ℕ, zero, suc, ◌+◌, ◌*◌, ◌/◌, ◌%◌, ◌^◌, bit_or, Bool, true, false, Option, none, some, List, [],
  ◌∷◌, ltb, get_elem?, replicate, ◌>>=◌,
}
use os_implement.Frames.{alloc_frame, frame_count}
use os_implement.Paging.{PageDir, Vm, Slot, get_page, at_slot, clone_dir}
use os_implement.Heap.Bytes.{Memory}
use os_implement.Heap.{Heap, add32, create_heap}
use os_implement.Malloc.{Kernel, malloc_s, malloc_ap}
use os_implement.Interrupts.{register_interrupt_handler}

abbrev pub kheap_start : ℕ
kheap_start = 0xc000_0000

abbrev pub kheap_initial_size : ℕ
kheap_initial_size = 0x10_0000

-- The sizes of page_table_struct, page_dir_struct and heap_t.
abbrev pub size_of_table : ℕ
size_of_table = 0x1000

abbrev pub size_of_dir : ℕ
size_of_dir = 0x2004

abbrev pub size_of_heap : ℕ
size_of_heap = 32

-- The variables of src/kernel_malloc.c, vm_page_dir, the tables with the frames, and the two control
-- registers of paging.
pub record Machine : Type 0 where
  pub kernel : Kernel
  pub vm_page_dir : PageDir
  pub vm : Vm
  pub cr0 : ℕ
  pub cr3 : ℕ

-- get_page(addr, 1, vm_page_dir), with the memory of a table from `_malloc_ap`.
unfoldable pub make_page : ℕ → Machine → Option (Option Slot × Machine)
make_page addr s = do
  entry ← get_elem? s.vm_page_dir.page_table (addr / 0x1000 / 1024)
  (phy, kernel) ← elim entry [
    | some t ↦ some (0, s.kernel)
    | none ↦ do
      (_, address, kernel) ← malloc_ap 0 size_of_table s.kernel
      phy ← address
      some (phy, kernel)
  ]
  (slot, dir, vm) ← get_page (λ t. phy) addr true s.vm_page_dir s.vm
  some (slot, record s { kernel = kernel; vm_page_dir = dir; vm = vm })

-- The first loop over the pages of the heap, with the rounds left: it makes their tables.
unfoldable pub make_tables : ℕ → ℕ → Machine → Option Machine
make_tables zero i s = some s
make_tables (suc rounds) i s = do (_, s') ← make_page i s; make_tables rounds (add32 i 0x1000) s'

-- The loop over the memory of the kernel, up to a placement address that it moves itself.
unfoldable pub map_kernel : ℕ → ℕ → Machine → Option Machine
map_kernel zero i s = none
map_kernel (suc fuel) i s = elim (ltb i s.kernel.placement_address) [
  | false ↦ some s
  | true ↦ do
    (found, s') ← make_page i s
    slot ← found
    vm ← at_slot (λ page. alloc_frame page 0 1) slot s'.vm
    map_kernel fuel (add32 i 0x1000) (record s' { vm = vm })
]

-- The second loop over the pages of the heap.
unfoldable pub map_heap : ℕ → ℕ → Machine → Option Machine
map_heap zero i s = some s
map_heap (suc rounds) i s = do
  (found, dir, vm) ← get_page (λ t. 0) i false s.vm_page_dir s.vm
  slot ← found
  vm' ← at_slot (λ page. alloc_frame page 0 1) slot vm
  map_heap rounds (add32 i 0x1000) (record s { vm_page_dir = dir; vm = vm' })

unfoldable pub switch_page_directory : PageDir → Machine → Machine
switch_page_directory dir s = record s {
  kernel = record s.kernel { cur_vm_page_dir = dir };
  cr3 = dir.page_dir_phy;
  cr0 = bit_or s.cr0 0x8000_0000;
}

-- The directory and the bitmap as memset leaves them, with page_dir_phy set.
abbrev pub blank_dir : ℕ → PageDir
blank_dir addr = record {
  page_table = replicate 1024 none;
  page_table_phy = replicate 1024 0;
  page_dir_phy = add32 addr 0x1000;
}

abbrev pub blank_frames : Vm → Vm
blank_frames vm = record vm {
  phys = record { frames = replicate (frame_count / 8) 0; printed = vm.phys.printed };
}

-- The start of `init_paging`: the bitmap and the directory.
unfoldable pub init_tables : Machine → Option Machine
init_tables s = do
  (_, _, kernel) ← malloc_s 0 (frame_count / 8) s.kernel
  (addr, _, kernel') ← malloc_ap 0 size_of_dir kernel
  some (record s { kernel = kernel'; vm_page_dir = blank_dir addr; vm = blank_frames s.vm })

-- Up to the first switch of the directory; at most 2^20 pages are mapped.
unfoldable pub map_memory : Machine → Option Machine
map_memory s = do
  s1 ← init_tables s
  s2 ← make_tables (kheap_initial_size / 0x1000) kheap_start s1
  (_, _, kernel) ← malloc_s 0 size_of_heap s2.kernel
  s3 ← map_kernel (2 ^ 20 + 1) 0 (record s2 { kernel = kernel })
  map_heap (kheap_initial_size / 0x1000) kheap_start s3

-- clone_dir(vm_page_dir), with the memory of the new directory from `_malloc_ap`. `table_phy` gives the
-- physical address of a table that it makes.
unfoldable pub clone_kernel_dir : (ℕ → ℕ) → Machine → Option (PageDir × Machine)
clone_kernel_dir table_phy s = do
  (_, address, kernel) ← malloc_ap 1 size_of_dir s.kernel
  phy ← address
  heap ← kernel.kheap
  (dir, vm) ← clone_dir table_phy phy s.vm_page_dir s.vm_page_dir heap.vm
  some
      (dir, record s { kernel = record kernel { kheap = some (record heap { vm = vm }) }; vm = vm })

-- `init_paging`, with the memory and the physical addresses of the tables to come.
module _ {H : Type 0} where
  unfoldable pub init_paging :
      H → (ℕ → ℕ) → Memory → List (Option H) → Machine → Option (List (Option H) × Machine)
  init_paging page_fault table_phy memory handlers s = do
    s1 ← map_memory s
    let handlers' = register_interrupt_handler 14 page_fault handlers
    let s2 = switch_page_directory s1.vm_page_dir s1
    heap ←
        create_heap kheap_start (kheap_start + kheap_initial_size) 0xcfff_f000 0 0 table_phy memory
          s2.vm_page_dir s2.vm
    (dir, s3) ←
        clone_kernel_dir table_phy (record s2 { kernel = record s2.kernel { kheap = some heap } })
    some (handlers', switch_page_directory dir s3)
