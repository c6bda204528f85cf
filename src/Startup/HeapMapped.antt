-- ===== src/Startup/HeapMapped.antt =====
-- The loop of `init_paging` that gives frames to the pages of the heap.
use os_implement.Prelude.{
  ℕ, zero, suc, ◌+◌, ◌-◌, ◌*◌, ◌/◌, ◌%◌, ◌^◌, ◌≤◌, ◌<◌, ◌≡◌, ◌≢◌, inl, inr, refl, sym, ap, ◌∙◌,
  false, some, arith, Bool-cases, ◌==◌, ==_iff, get_elem?,
}
use mathlib.Core.Path.{subst}
use os_implement.Frames.{Phys, alloc_frame}
use os_implement.Paging.{Vm, Slot, zero_page, get_page, at_slot}
use os_implement.Paging.Lookup.{IsTables, get_page_found}
use os_implement.Paging.Mapping.{page_at, page_at_table}
use os_implement.Paging.Written.{at_slot_changed}
use os_implement.Heap.{add32}
use os_implement.Startup.{Machine, map_heap}
use os_implement.Paging.Exact.{IsExact, kernel_page, alloc_frame-IsExact}
use os_implement.Startup.HeapPages.{first_page, heap_pages, IsMapped}

map_heap_step :
    (rounds n t : ℕ) (s : Machine) (vm : Vm)
    → n < 2 ^ 20 - 1
    → get_elem? s.vm_page_dir.page_table (n / 1024) ≡ some (some t)
    → at_slot (λ page. alloc_frame page 0 1) (record { table = t; index = n % 1024 }) s.vm ≡ some vm
    → map_heap (suc rounds) (n * 0x1000) s
      ≡ map_heap rounds ((n + 1) * 0x1000) (record s { vm = vm })
unfolding map_heap
map_heap_step rounds n t s vm small e f =
    let next : add32 (n * 0x1000) 0x1000 ≡ (n + 1) * 0x1000 = omega arith in
    let page : n * 0x1000 / 0x1000 ≡ n = omega arith in
    let here : get_elem? s.vm_page_dir.page_table (n * 0x1000 / 0x1000 / 1024) ≡ some (some t) =
      ap (λ k. get_elem? s.vm_page_dir.page_table (k / 1024)) page ∙ e in
    let found = get_page_found (λ t. 0) (n * 0x1000) s.vm_page_dir s.vm false t here in
    let slot : Slot = record { table = t; index = n % 1024 } in
    let found' : get_page (λ t. 0) (n * 0x1000) false s.vm_page_dir s.vm
        ≡ some (some slot, s.vm_page_dir, s.vm) =
      found
      ∙ ap (λ k. some (some (record { table = t; index = k % 1024 }), s.vm_page_dir, s.vm)) page in
    rw (found', f, next) refl

heap_step :
    (N j : ℕ) (s : Machine) (vm : Vm) (phys : Phys)
    → IsMapped N j s
    → N ≤ 3840
    → j < heap_pages
    → IsExact (N + j + 1) phys
    → vm.phys ≡ phys
    → IsTables s.vm_page_dir vm
    → page_at (first_page + j) s.vm_page_dir vm ≡ some (kernel_page (N + j))
    → ((q : ℕ) → q ≢ first_page + j → page_at q s.vm_page_dir vm ≡ page_at q s.vm_page_dir s.vm)
    → IsMapped N (j + 1) (record s { vm = vm })
heap_step N j s vm phys ok low small exact e tables here there = record {
  kheap = ok.kheap;
  tables = tables;
  exact = subst (IsExact (N + (j + 1))) (sym e) (subst (λ n. IsExact n phys) (omega arith) exact);
  low = λ p h. there p (λ q. absurd (omega arith)) ∙ ok.low p h;
  heap = λ k h. elim (Bool-cases (k == j)) [
    | inl q ↦
        let same : j ≡ k = sym ((==_iff k j).0 q) in
        subst (λ i. page_at (first_page + i) s.vm_page_dir vm ≡ some (kernel_page (N + i))) same
          here
    | inr d ↦
        there (first_page + k) (λ q. absurd (ground (arith, d, q)))
        ∙ ok.heap k (ground (arith, d, h))
  ];
  rest = λ k h l. there (first_page + k) (λ q. absurd (omega arith)) ∙ ok.rest k (omega arith) l;
  above = λ p h l.
      let e =
        there p (λ q. elim l [ inl a ↦ absurd (omega arith) | inr a ↦ absurd (omega arith) ]) in
      elim (ok.above p h l) [ inl v ↦ inl (e ∙ v) | inr v ↦ inr (e ∙ v) ];
}

pub map_heap-IsMapped :
    (rounds N j : ℕ) (s : Machine)
    → IsMapped N j s
    → N ≤ 3840
    → j + rounds ≡ heap_pages
    → (s' : Machine) × (map_heap rounds ((first_page + j) * 0x1000) s ≡ some s')
      × IsMapped N heap_pages s'
      × (s'.kernel ≡ s.kernel)
map_heap-IsMapped zero N j s ok low e =
    (s, unfold map_heap in refl, subst (λ k. IsMapped N k s) (omega arith) ok, refl)
map_heap-IsMapped (suc rounds) N j s ok low e =
    let clear = ok.rest j (omega arith) (omega arith) in
    let (t, _, here, _, _) = page_at_table s.vm_page_dir s.vm (first_page + j) zero_page clear in
    let (phys, f, exact) = alloc_frame-IsExact (N + j) s.vm.phys ok.exact (omega arith) in
    let (vm, g, phys', tables, now, there) =
      at_slot_changed s.vm_page_dir s.vm (first_page + j) t (λ page. alloc_frame page 0 1) zero_page
        (kernel_page (N + j)) phys ok.tables here clear f in
    let s1 : Machine = record s { vm = vm } in
    let (s2, h, r, k) =
      map_heap-IsMapped rounds N (j + 1) s1
        (heap_step N j s vm phys ok low (omega arith) exact phys' tables now there) low
        (omega arith) in
    let place : first_page + j + 1 ≡ first_page + (j + 1) = omega arith in
    (
      s2,
      map_heap_step rounds (first_page + j) t s vm (omega arith) here g
          ∙ ap (λ n. map_heap rounds (n * 0x1000) s1) place
          ∙ h,
      r,
      k,
    )
