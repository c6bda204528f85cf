-- ===== src/Startup/Mapped.antt =====
-- The memory that `init_paging` maps: the kernel's, and the heap's behind it.
use os_implement.Prelude.{
  ℕ, ◌+◌, ◌*◌, ◌/◌, ◌^◌, ◌≤◌, ◌<◌, ◌≡◌, refl, ap, ◌∙◌, false, Option, none, some, [], arith,
  replicate,
}
use mathlib.Core.Path.{subst}
use os_implement.Frames.{frame_count}
use os_implement.Paging.{PageDir, Vm, zero_page}
use os_implement.Paging.Empty.{empty_dir-IsTables, empty_dir-VacantAt}
use os_implement.Malloc.{Kernel, malloc_s, malloc_ap}
use os_implement.Malloc.Placement.{malloc_placement, start_of}
use os_implement.Startup.{
  Machine, size_of_dir, size_of_heap, blank_dir, blank_frames, init_tables, make_tables, map_kernel,
  map_heap, map_memory,
}
use os_implement.Paging.Exact.{IsExact, zeros-IsExact}
use os_implement.Startup.Step.{IsIdentity, malloc_ap_placement}
use os_implement.Startup.Identity.{map_kernel-Filled}
use os_implement.Startup.HeapPages.{
  first_page, heap_pages, IsPrepared, make_tables-IsPrepared, IsMapped,
}
use os_implement.Startup.HeapMapped.{map_heap-IsMapped}

-- The two calls of `_malloc` that `init_paging` starts with.
init_tables_step :
    (s : Machine) (a b : ℕ) (o p : Option ℕ) (k k' : Kernel)
    → malloc_s 0 (frame_count / 8) s.kernel ≡ some (a, o, k)
    → malloc_ap 0 size_of_dir k ≡ some (b, p, k')
    → (dir : PageDir) × (vm : Vm) × (init_tables s
        ≡ some (record s { kernel = k'; vm_page_dir = dir; vm = vm }))
      × (dir.page_table ≡ replicate 1024 none)
      × (dir.page_table_phy ≡ replicate 1024 0)
      × (vm.phys.frames ≡ replicate (frame_count / 8) 0)
      × (vm.tables ≡ s.vm.tables)
unfolding init_tables
init_tables_step s a b o p k k' e f =
    (blank_dir b, blank_frames s.vm, rw (e, f) refl, refl, refl, refl, refl)

malloc_s_placement :
    (n : ℕ) (k : Kernel)
    → k.kheap ≡ none
    → k.placement_address + n + 0x1000 < 2 ^ 32
    → malloc_s 0 n k
      ≡ some (k.placement_address, none, record k { placement_address = k.placement_address + n })
unfolding malloc_s
malloc_s_placement n k e h = malloc_placement 0 n 0 false k e h

init_tables-IsPrepared :
    (s : Machine)
    → s.kernel.kheap ≡ none
    → s.vm.tables ≡ []
    → s.kernel.placement_address ≤ 0xe0_0000
    → (start : ℕ) × (s' : Machine) × (init_tables s ≡ some s')
      × IsPrepared start 0 s'
      × (s.kernel.placement_address ≤ start)
      × (start ≤ s.kernel.placement_address + 0x4000)
init_tables-IsPrepared s e none_yet low =
    let k1 : Kernel = record s.kernel { placement_address = s.kernel.placement_address + 512 } in
    let (dir, vm, f, table, table_phy, frames, tables) =
      init_tables_step s _ _ _ _ _ _ (malloc_s_placement (frame_count / 8) s.kernel e (omega arith))
        (malloc_ap_placement size_of_dir k1 e (omega arith)) in
    let start = start_of 1 k1.placement_address + size_of_dir in
    (
      start,
      _,
      f,
      record {
        identity = record {
          kheap = e;
          tables = empty_dir-IsTables 1024 dir vm refl table table_phy (tables ∙ none_yet);
          exact = zeros-IsExact vm.phys (frame_count / 8) refl frames;
          mapped = λ p h. absurd (omega arith);
          above = λ p h. empty_dir-VacantAt 1024 dir vm p table;
        };
        clear = λ k h. absurd (omega arith);
        grows = omega arith;
        few = omega arith;
      },
      ground arith,
      ground arith,
    )

map_memory_step :
    (s s1 s2 s3 : Machine) (a : ℕ) (o : Option ℕ) (k : Kernel)
    → init_tables s ≡ some s1
    → make_tables heap_pages (first_page * 0x1000) s1 ≡ some s2
    → malloc_s 0 size_of_heap s2.kernel ≡ some (a, o, k)
    → map_kernel (2 ^ 20 + 1) 0 (record s2 { kernel = k }) ≡ some s3
    → map_memory s ≡ map_heap heap_pages (first_page * 0x1000) s3
unfolding map_memory
map_memory_step s s1 s2 s3 a o k e f g h = rw (e, f, g, h) refl

-- What `init_paging` has mapped when it switches the directory for the first time.
pub record MapsMemory (s : Machine) (N : ℕ) (s' : Machine) : Type 0 where
  pub mapped : IsMapped N heap_pages s'
  pub covers : s'.kernel.placement_address ≤ N * 0x1000
  pub tight : N * 0x1000 < s'.kernel.placement_address + 0x1000
  pub grows : s.kernel.placement_address ≤ s'.kernel.placement_address
  pub few : s'.kernel.placement_address ≤ s.kernel.placement_address + 0x1_0000

pub map_memory-MapsMemory :
    (s : Machine)
    → s.kernel.kheap ≡ none
    → s.vm.tables ≡ []
    → s.kernel.placement_address ≤ 0xe0_0000
    → (N : ℕ) × (s' : Machine) × (map_memory s ≡ some s') × MapsMemory s N s'
map_memory-MapsMemory s e none_yet low =
    let (start, s1, a, r1, after, before) = init_tables-IsPrepared s e none_yet low in
    let (s2, b, r2) = make_tables-IsPrepared start heap_pages 0 s1 r1 refl (omega arith) in
    let k2 : Kernel = record s2.kernel {
      placement_address = s2.kernel.placement_address + size_of_heap;
    } in
    let c = malloc_s_placement size_of_heap s2.kernel r2.identity.kheap (omega (arith, r2.few)) in
    let s2' : Machine = record s2 { kernel = k2 } in
    let identity : IsIdentity 0 s2' = record {
      kheap = r2.identity.kheap;
      tables = r2.identity.tables;
      exact = r2.identity.exact;
      mapped = r2.identity.mapped;
      above = r2.identity.above;
    } in
    let (N, s3, d, r3) =
      map_kernel-Filled k2.placement_address (2 ^ 20 + 1) 0 s2' identity (omega (arith, r2.few))
        (omega arith) (omega arith) (omega arith) (omega arith) in
    let ready : IsMapped N 0 s3 = record {
      kheap = r3.identity.kheap;
      tables = r3.identity.tables;
      exact = subst (λ n. IsExact n s3.vm.phys) (omega arith) r3.identity.exact;
      low = r3.identity.mapped;
      heap = λ k h. absurd (omega arith);
      rest = λ k h l. r3.kept (first_page + k) zero_page (omega arith) (r2.clear k l);
      above = λ p h l. r3.identity.above p h;
    } in
    let small : N ≤ 3840 = omega (arith, r3.tight, r3.few, r2.few) in
    let (s4, f, r4, same) = map_heap-IsMapped heap_pages N 0 s3 ready small refl in
    let placed = ap (λ k. k.placement_address) same in
    (
      N,
      s4,
      map_memory_step s s1 s2 s3 _ _ k2 a b c d ∙ f,
      record {
        mapped = r4;
        covers = omega (arith, r3.covers, placed);
        tight = omega (arith, r3.tight, placed);
        grows = omega (arith, r3.grows, r2.grows, placed);
        few = omega (arith, r3.few, r2.few, placed);
      },
    )
