-- ===== src/Malloc.antt =====
-- The allocation of memory for the kernel, src/kernel_malloc.c: from an address that only grows while
-- there is no heap, and from the heap as soon as there is one. `none` is a fault or a panic.
pub mod Calls
pub mod Placement
mod Tests
use os_implement.Prelude.{
  ℕ, zero, suc, ◌+◌, ◌-◌, ◌*◌, ◌%◌, ◌^◌, bit_and, Bool, true, false, not, ◌&&◌, Option, none, some,
  ◌==◌, if◌then◌else◌, get_elem?, ◌>>=◌,
}
use os_implement.Paging.{PageDir, get_page}
use os_implement.Heap.{Heap, add32}
use os_implement.Heap.Blocks.{alloc, free}

-- The variables; `none` for a kheap that is NULL.
pub record Kernel : Type 0 where
  pub kheap : Option Heap
  pub placement_address : ℕ
  pub cur_vm_page_dir : PageDir

-- What is stored at phy_address for an address of the heap: `page->frame*0x1000 + (addr & 0xFFF)`.
unfoldable pub physical : ℕ → PageDir → Heap → Option ℕ
physical addr dir h = do
  (found, _, _) ← get_page h.table_phy addr false dir h.vm
  slot ← found
  pages ← get_elem? h.vm.tables slot.table
  page ← get_elem? pages slot.index
  some (add32 (page.frame * 0x1000) (bit_and addr 0xfff))

-- The address, what is stored at phy_address unless that is NULL, and the variables; the fuel is that
-- of `alloc`.
unfoldable pub malloc : ℕ → ℕ → ℕ → Bool → Kernel → Option (ℕ × Option ℕ × Kernel)
unfolding alloc physical
malloc fuel m_size align phy_address k = elim k.kheap [
  | none ↦
      let start =
        if align == 1 && not (bit_and k.placement_address 0xfff == 0)
        then add32 (bit_and k.placement_address 0xffff_f000) 0x1000
        else k.placement_address in
      let next = add32 start m_size in
      some (
        (next + 2 ^ 32 - m_size) % 2 ^ 32,
        if phy_address then some start else none,
        record k { placement_address = next },
      )
  | some h ↦ do
    (addr, h') ← alloc fuel m_size align h
    let k' = record k { kheap = some h' }
    if phy_address
        then (do phy ← physical addr k.cur_vm_page_dir h'; some (addr, some phy, k'))
        else some (addr, none, k')
]

unfoldable pub malloc_s : ℕ → ℕ → Kernel → Option (ℕ × Option ℕ × Kernel)
unfolding malloc
malloc_s fuel m_size k = malloc fuel m_size 0 false k

unfoldable pub malloc_a : ℕ → ℕ → Kernel → Option (ℕ × Option ℕ × Kernel)
unfolding malloc
malloc_a fuel m_size k = malloc fuel m_size 1 false k

unfoldable pub malloc_ap : ℕ → ℕ → Kernel → Option (ℕ × Option ℕ × Kernel)
unfolding malloc
malloc_ap fuel m_size k = malloc fuel m_size 1 true k

unfoldable pub kfree : ℕ → Kernel → Option Kernel
unfolding free
kfree addr k = do h ← k.kheap; h' ← free addr h; some (record k { kheap = some h' })
