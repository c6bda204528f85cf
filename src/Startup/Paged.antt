-- ===== src/Startup/Paged.antt =====
-- `init_paging` as a whole.
use os_implement.Prelude.{
  ℕ, ◌+◌, ◌*◌, ◌≤◌, ◌<◌, ◌≡◌, ◌⊎◌, refl, sym, ap, ◌∙◌, Option, none, some, List, [], arith, length,
  get_elem?,
}
use mathlib.Core.Path.{subst}
use os_implement.Paging.{PageDir}
use os_implement.Paging.Lookup.{IsTables}
use os_implement.Paging.Mapping.{page_at, VacantAt}
use os_implement.Heap.Bytes.{Memory, IsBytes, IsKept}
use os_implement.Heap.{Heap, create_heap}
use os_implement.Heap.Layout.{HeaderAt}
use os_implement.Malloc.{Kernel}
use os_implement.Interrupts.{register_interrupt_handler}
use os_implement.Startup.{
  Machine, kheap_start, kheap_initial_size, size_of_dir, map_memory, switch_page_directory,
  clone_kernel_dir, init_paging,
}
use os_implement.Paging.Exact.{IsExact, kernel_page}
use os_implement.Startup.HeapPages.{first_page, heap_pages}
use os_implement.Startup.Mapped.{map_memory-MapsMemory}
use os_implement.Startup.Switch.{clone_dir-same, physical-mapped, malloc_ap_heap}
use os_implement.Startup.FirstHeap.{make_heap, clone_kernel_dir_step}

-- The machine when `init_paging` is done, from the machine s: N pages of the kernel are mapped to the
-- frames of their numbers and cover all that was placed, the pages of the heap to the N-th frame and
-- those behind it, and no other frame is used; the directory in force has the tables of vm_page_dir, and
-- the processor has the physical address of its page_table_phy.
pub record IsPaged (s : Machine) (N : ℕ) (s' : Machine) : Type 0 where
  pub low : (p : ℕ) → p < N → page_at p s'.vm_page_dir s'.vm ≡ some (kernel_page p)
  pub heap :
      (k : ℕ)
      → k < heap_pages
      → page_at (first_page + k) s'.vm_page_dir s'.vm ≡ some (kernel_page (N + k))
  pub exact : IsExact (N + heap_pages) s'.vm.phys
  pub above :
      (p : ℕ)
      → N ≤ p
      → (p < first_page) ⊎ (first_page + heap_pages ≤ p)
      → VacantAt p s'.vm_page_dir s'.vm
  pub tables : IsTables s'.vm_page_dir s'.vm
  pub covers : s'.kernel.placement_address ≤ N * 0x1000
  pub tight : N * 0x1000 < s'.kernel.placement_address + 0x1000
  pub grows : s.kernel.placement_address ≤ s'.kernel.placement_address
  pub few : s'.kernel.placement_address ≤ s.kernel.placement_address + 0x1_0000
  pub shares : s'.kernel.cur_vm_page_dir.page_table ≡ s'.vm_page_dir.page_table
  pub size_phy : length s'.kernel.cur_vm_page_dir.page_table_phy ≡ 1024
  pub shares_phy :
      (i t : ℕ)
      → get_elem? s'.vm_page_dir.page_table i ≡ some (some t)
      → get_elem? s'.kernel.cur_vm_page_dir.page_table_phy i
        ≡ get_elem? s'.vm_page_dir.page_table_phy i
  pub cr3_lem : s'.cr3 ≡ s'.kernel.cur_vm_page_dir.page_dir_phy
  pub frame_lem : s'.cr3 ≡ (N + 130) * 0x1000

-- The heap when `init_paging` is done: the cloned directory is its one block, in the 130th page.
pub record HasHeap (memory : Memory) (s : Machine) : Type 0 where
  pub made : Heap
  pub kheap : s.kernel.kheap ≡ some made
  pub vm : made.vm ≡ s.vm
  pub start : made.start_address ≡ 0xc008_0000
  pub end : made.end_address ≡ 0xc010_0000
  pub block : HeaderAt made.memory 0xc008_0ff4 0 (size_of_dir + 20)
  pub bytes : IsBytes memory → IsBytes made.memory
  pub kept : IsKept 0xc008_0000 memory made.memory

module _ {H : Type 0} where
  init_paging_step :
      (page_fault : H) (phy : ℕ → ℕ) (memory : Memory) (handlers : List (Option H))
      (s s1 s3 : Machine) (heap : Heap) (dir : PageDir)
      → map_memory s ≡ some s1
      → create_heap kheap_start
          (kheap_start + kheap_initial_size)
          0xcfff_f000
          0
          0
          phy
          memory
          s1.vm_page_dir
          s1.vm
        ≡ some heap
      → (let s2 = switch_page_directory s1.vm_page_dir s1 in
          clone_kernel_dir phy (record s2 { kernel = record s2.kernel { kheap = some heap } })
          ≡ some (dir, s3))
      → init_paging page_fault phy memory handlers s
        ≡ some (register_interrupt_handler 14 page_fault handlers, switch_page_directory dir s3)
  unfolding init_paging switch_page_directory
  init_paging_step page_fault phy memory handlers s s1 s3 heap dir e f g = rw (e, f, g) refl

  -- While there is no heap, no table of pages is there and the placement address is at most 0xe00000:
  -- `init_paging` comes to an end. It has then mapped N pages of the kernel to the frames of their
  -- numbers, up to a placement address that it moves itself by at most 0x10000, the pages of the heap to
  -- the N-th frame and those behind it, used no other frame, and nothing is mapped elsewhere; the heap
  -- has one block, for the directory in force, whose tables are those of vm_page_dir; cr3 is the physical
  -- address of its entries, and interrupt 14 has the handler of page faults.
  pub init_paging-IsPaged :
      (page_fault : H) (phy : ℕ → ℕ) (memory : Memory) (handlers : List (Option H)) (s : Machine)
      → s.kernel.kheap ≡ none
      → s.vm.tables ≡ []
      → s.kernel.placement_address ≤ 0xe0_0000
      → (handlers' : List (Option H)) × (s' : Machine) × (N : ℕ) × (init_paging page_fault phy
            memory handlers s
          ≡ some (handlers', s'))
        × IsPaged s N s'
        × HasHeap memory s'
        × (handlers' ≡ register_interrupt_handler 14 page_fault handlers)
  unfolding switch_page_directory
  init_paging-IsPaged page_fault phy memory handlers s e none_yet low =
      let (N, s1, a, m) = map_memory-MapsMemory s e none_yet low in
      let (heap, heap', h) = make_heap phy memory s1 in
      let s2 = switch_page_directory s1.vm_page_dir s1 in
      let k2 : Kernel = record s2.kernel { kheap = some heap } in
      let small : N ≤ 3840 = omega (arith, m.tight, m.few) in
      let there : page_at (first_page + 129) s1.vm_page_dir heap'.vm
          ≡ some (kernel_page (N + 129)) =
        ap (page_at (first_page + 129) s1.vm_page_dir) h.vm ∙ m.mapped.heap 129 (omega arith) in
      let phys =
        physical-mapped (first_page + 129) (kernel_page (N + 129)) s1.vm_page_dir heap' there
          (omega arith) in
      let taken =
        malloc_ap_heap 1 size_of_dir 0xc008_1000 ((N + 129) * 0x1000) k2 heap heap' refl h.taken
          phys in
      let long_tables = m.mapped.tables.size ∙ sym m.mapped.tables.size_phy in
      let (dir, f, table, size_phy, table_phy, dir_phy) =
        clone_dir-same phy ((N + 129) * 0x1000) s1.vm_page_dir heap'.vm long_tables in
      let s3 : Machine = record s2 {
        kernel = record k2 { kheap = some (record heap' { vm = heap'.vm }) };
        vm = heap'.vm;
      } in
      let cloned =
        clone_kernel_dir_step phy (record s2 { kernel = k2 }) 0xc008_1000 ((N + 129) * 0x1000)
          (record k2 { kheap = some heap' }) heap' dir taken refl f in
      (
        _,
        _,
        N,
        init_paging_step page_fault phy memory handlers s s1 s3 heap dir a h.made cloned,
        record {
          low = λ p small. ap (page_at p s1.vm_page_dir) h.vm ∙ m.mapped.low p small;
          heap =
              λ k small. ap (page_at (first_page + k) s1.vm_page_dir) h.vm ∙ m.mapped.heap k small;
          exact = subst (λ vm. IsExact (N + heap_pages) vm.phys) (sym h.vm) m.mapped.exact;
          above = λ p out l. subst (VacantAt p s1.vm_page_dir) (sym h.vm) (m.mapped.above p out l);
          tables = subst (IsTables s1.vm_page_dir) (sym h.vm) m.mapped.tables;
          covers = m.covers;
          tight = m.tight;
          grows = m.grows;
          few = m.few;
          shares = table;
          size_phy = size_phy ∙ m.mapped.tables.size_phy;
          shares_phy = table_phy;
          cr3_lem = refl;
          frame_lem = dir_phy ∙ omega arith;
        },
        record {
          made = record heap' { vm = heap'.vm };
          kheap = refl;
          vm = refl;
          start = h.start;
          end = h.end;
          block = h.block;
          bytes = h.bytes;
          kept = h.kept;
        },
        refl,
      )
