-- ===== src/Startup/FirstHeap.antt =====
-- The heap of `init_paging`, and the directory that is its first block.
use os_implement.Prelude.{ℕ, ◌+◌, ◌≡◌, refl, ◌∙◌, some, arith}
use os_implement.Paging.{PageDir, clone_dir}
use os_implement.Heap.Bytes.{Memory, IsBytes, IsKept}
use os_implement.Heap.{Heap, create_heap}
use os_implement.Heap.Blocks.{alloc}
use os_implement.Heap.Layout.{HeaderAt}
use os_implement.Heap.New.{create_heap-IsNew}
use os_implement.Heap.Create.{alloc_new_aligned}
use os_implement.Malloc.{Kernel, malloc_ap}
use os_implement.Startup.{Machine, kheap_start, kheap_initial_size, size_of_dir, clone_kernel_dir}

-- The heap that `create_heap` makes of the pages it was given, and its first block, for the directory.
pub record HeapMade (phy : ℕ → ℕ) (memory : Memory) (s : Machine) (heap heap' : Heap) : Type 0 where
  pub made :
      create_heap kheap_start
        (kheap_start + kheap_initial_size)
        0xcfff_f000
        0
        0
        phy
        memory
        s.vm_page_dir
        s.vm
      ≡ some heap
  pub taken : alloc 1 size_of_dir 1 heap ≡ some (0xc008_1000, heap')
  pub vm : heap'.vm ≡ s.vm
  pub start : heap'.start_address ≡ 0xc008_0000
  pub end : heap'.end_address ≡ 0xc010_0000
  pub block : HeaderAt heap'.memory 0xc008_0ff4 0 (size_of_dir + 20)
  pub bytes : IsBytes memory → IsBytes heap'.memory
  pub kept : IsKept 0xc008_0000 memory heap'.memory

pub make_heap :
    (phy : ℕ → ℕ) (memory : Memory) (s : Machine)
    → (heap : Heap) × (heap' : Heap) × HeapMade phy memory s heap heap'
make_heap phy memory s =
    let (heap, e, new, vm, dir, bytes, kept) =
      create_heap-IsNew kheap_start (kheap_start + kheap_initial_size) 0xcfff_f000 0 0 phy memory
        s.vm_page_dir s.vm (omega arith) (omega arith) (omega arith) in
    let (index, m, f, block, bytes', kept') =
      alloc_new_aligned 0 size_of_dir 0xc008_0000 0xc010_0000 heap new (omega arith) (omega arith)
        (omega arith) (omega arith) (omega arith) in
    (
      heap,
      record heap { index = index; memory = m },
      record {
        made = e;
        taken = f;
        vm = vm;
        start = new.start_lem;
        end = new.end_lem;
        block = block;
        bytes = λ h. bytes' (bytes h);
        kept = λ a h. kept' a h ∙ kept a h;
      },
    )

pub clone_kernel_dir_step :
    (phy : ℕ → ℕ) (s : Machine) (addr p : ℕ) (kernel : Kernel) (heap : Heap) (dir : PageDir)
    → malloc_ap 1 size_of_dir s.kernel ≡ some (addr, some p, kernel)
    → kernel.kheap ≡ some heap
    → clone_dir phy p s.vm_page_dir s.vm_page_dir heap.vm ≡ some (dir, heap.vm)
    → clone_kernel_dir phy s
      ≡ some (
        dir,
        record s {
          kernel = record kernel { kheap = some (record heap { vm = heap.vm }) };
          vm = heap.vm;
        },
      )
unfolding clone_kernel_dir
clone_kernel_dir_step phy s addr p kernel heap dir e f g = rw (e, f, g) refl
