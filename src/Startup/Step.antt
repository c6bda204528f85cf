-- ===== src/Startup/Step.antt =====
-- `get_page` with `make` while there is no heap: one page is made and given a frame.
use os_implement.Prelude.{
  ℕ, ◌+◌, ◌*◌, ◌/◌, ◌%◌, ◌^◌, ◌≤◌, ◌<◌, ◌≡◌, ◌≢◌, inl, inr, refl, sym, ap, ◌∙◌, true, none, some,
  arith, get_elem?, Option-cases, get_elem?_lt, Bool-cases, ◌==◌, ==_iff,
}
use mathlib.Core.Path.{subst}
use os_implement.Frames.{Page, alloc_frame, frame_count}
use os_implement.Paging.{PageDir, Vm, Slot, zero_page, get_page, at_slot}
use os_implement.Paging.Lookup.{IsTables}
use os_implement.Paging.Mapping.{page_at, page_at_table, VacantAt, Keeps, get_page_mapping}
use os_implement.Paging.Written.{at_slot_changed}
use os_implement.Malloc.{Kernel, malloc_ap}
use os_implement.Malloc.Placement.{malloc_placement, start_of}
use os_implement.Startup.{Machine, size_of_table, make_page}
use os_implement.Paging.Exact.{IsExact, kernel_page, alloc_frame-IsExact}

pub malloc_ap_placement :
    (n : ℕ) (k : Kernel)
    → k.kheap ≡ none
    → k.placement_address + n + 0x1000 < 2 ^ 32
    → malloc_ap 0 n k
      ≡ some (
        start_of 1 k.placement_address,
        some (start_of 1 k.placement_address),
        record k { placement_address = start_of 1 k.placement_address + n },
      )
unfolding malloc_ap
malloc_ap_placement n k e h = malloc_placement 0 n 1 true k e h

-- The two ways of `make_page`.
make_page_there :
    (addr t : ℕ) (slot : Slot) (dir : PageDir) (vm : Vm) (s : Machine)
    → get_elem? s.vm_page_dir.page_table (addr / 0x1000 / 1024) ≡ some (some t)
    → get_page (λ u. 0) addr true s.vm_page_dir s.vm ≡ some (some slot, dir, vm)
    → make_page addr s ≡ some (some slot, record s { vm_page_dir = dir; vm = vm })
unfolding make_page
make_page_there addr t slot dir vm s e f = rw (e, f)

make_page_new :
    (addr phy : ℕ) (slot : Slot) (dir : PageDir) (vm : Vm) (kernel : Kernel) (s : Machine)
    → get_elem? s.vm_page_dir.page_table (addr / 0x1000 / 1024) ≡ some none
    → malloc_ap 0 size_of_table s.kernel ≡ some (phy, some phy, kernel)
    → get_page (λ u. phy) addr true s.vm_page_dir s.vm ≡ some (some slot, dir, vm)
    → make_page addr s ≡ some (some slot, record s { kernel = kernel; vm_page_dir = dir; vm = vm })
unfolding make_page
make_page_new addr phy slot dir vm kernel s e g f = rw (e, g, f)

-- A page of which the entry was found or made.
pub record MadeAt (n t : ℕ) (s s' : Machine) : Type 0 where
  pub kheap : s'.kernel.kheap ≡ none
  pub tables : IsTables s'.vm_page_dir s'.vm
  pub phys : s'.vm.phys ≡ s.vm.phys
  pub entry : get_elem? s'.vm_page_dir.page_table (n / 1024) ≡ some (some t)
  pub clear : VacantAt n s.vm_page_dir s.vm → page_at n s'.vm_page_dir s'.vm ≡ some zero_page
  pub keeps : (q : ℕ) → Keeps s.vm_page_dir s.vm s'.vm_page_dir s'.vm q
  pub grows : s.kernel.placement_address ≤ s'.kernel.placement_address
  pub few : s'.kernel.placement_address ≤ s.kernel.placement_address + 0x2000
  pub same :
      (x : Page) (p : ℕ)
      → p / 1024 ≡ n / 1024
      → page_at p s.vm_page_dir s.vm ≡ some x
      → s'.kernel.placement_address ≡ s.kernel.placement_address

pub make_page-MadeAt :
    (n : ℕ) (s : Machine)
    → s.kernel.kheap ≡ none
    → IsTables s.vm_page_dir s.vm
    → n < 2 ^ 20
    → s.kernel.placement_address + 0x2000 < 2 ^ 32
    → (t : ℕ) × (s' : Machine) × (make_page (n * 0x1000) s
        ≡ some (some (record { table = t; index = n % 1024 }), s'))
      × MadeAt n t s s'
make_page-MadeAt n s none_yet ok small room =
    let (entry, e) =
      get_elem?_lt s.vm_page_dir.page_table (n * 0x1000 / 0x1000 / 1024) (omega (arith, ok.size)) in
    elim (Option-cases entry) [
      | inr (u, f) ↦
          let (t, dir, vm, g, tables, phys, there, clear, keeps) =
            get_page_mapping (λ u. 0) n s.vm_page_dir s.vm ok small in
          (
            t,
            record s { vm_page_dir = dir; vm = vm },
            make_page_there (n * 0x1000) u (record { table = t; index = n % 1024 }) dir vm s
                (e ∙ ap some f) g,
            record {
              kheap = none_yet;
              tables = tables;
              phys = phys;
              entry = there;
              clear = clear;
              keeps = keeps;
              grows = omega arith;
              few = omega arith;
              same = λ x p h g. refl;
            },
          )
      | inl f ↦
          let phy = start_of 1 s.kernel.placement_address in
          let (t, dir, vm, g, tables, phys, there, clear, keeps) =
            get_page_mapping (λ u. phy) n s.vm_page_dir s.vm ok small in
          (
            t,
            record s {
              kernel = record s.kernel { placement_address = phy + 0x1000 };
              vm_page_dir = dir;
              vm = vm;
            },
            make_page_new (n * 0x1000) phy (record { table = t; index = n % 1024 }) dir vm _ s
                (e ∙ ap some f) (malloc_ap_placement size_of_table s.kernel none_yet (omega arith))
                g,
            record {
              kheap = none_yet;
              tables = tables;
              phys = phys;
              entry = there;
              clear = clear;
              keeps = keeps;
              grows = ground arith;
              few = ground arith;
              same = λ x p h g.
                  let (u, _, e1, _, _) = page_at_table s.vm_page_dir s.vm p x g in
                  let place : n * 0x1000 / 0x1000 / 1024 ≡ p / 1024 = omega arith in
                  let there = ap (get_elem? s.vm_page_dir.page_table) place ∙ e1 in
                  cc (e, f, there);
            },
          )
    ]

-- Pages from 0 on that are mapped to the frames of the same numbers, with nothing mapped above them yet
-- and every other frame free.
pub record IsIdentity (n : ℕ) (s : Machine) : Type 0 where
  pub kheap : s.kernel.kheap ≡ none
  pub tables : IsTables s.vm_page_dir s.vm
  pub exact : IsExact n s.vm.phys
  pub mapped : (p : ℕ) → p < n → page_at p s.vm_page_dir s.vm ≡ some (kernel_page p)
  pub above : (p : ℕ) → n ≤ p → VacantAt p s.vm_page_dir s.vm

-- The step of `map_kernel` at page n.
pub record Stepped (n : ℕ) (s s' : Machine) : Type 0 where
  pub identity : IsIdentity (n + 1) s'
  pub kept :
      (q : ℕ) (x : Page)
      → q ≢ n
      → page_at q s.vm_page_dir s.vm ≡ some x
      → page_at q s'.vm_page_dir s'.vm ≡ some x
  pub grows : s.kernel.placement_address ≤ s'.kernel.placement_address
  pub few : s'.kernel.placement_address ≤ s.kernel.placement_address + 0x2000
  pub same :
      (x : Page) (p : ℕ)
      → p / 1024 ≡ n / 1024
      → page_at p s.vm_page_dir s.vm ≡ some x
      → s'.kernel.placement_address ≡ s.kernel.placement_address

pub Stepped_lem :
    (n : ℕ) (s : Machine)
    → IsIdentity n s
    → n < frame_count
    → s.kernel.placement_address + 0x2000 < 2 ^ 32
    → (slot : Slot) × (s1 : Machine) × (vm : Vm) × (make_page (n * 0x1000) s ≡ some (some slot, s1))
      × (at_slot (λ page. alloc_frame page 0 1) slot s1.vm ≡ some vm)
      × Stepped n s (record s1 { vm = vm })
Stepped_lem n s ok small room =
    let (t, s1, e, m) = make_page-MadeAt n s ok.kheap ok.tables (omega arith) room in
    let zero_here = m.clear (ok.above n (omega arith)) in
    let exact1 : IsExact n s1.vm.phys = subst (IsExact n) (sym m.phys) ok.exact in
    let (phys, f, exact) = alloc_frame-IsExact n s1.vm.phys exact1 small in
    let (vm, g, phys', tables, here, there) =
      at_slot_changed s1.vm_page_dir s1.vm n t (λ page. alloc_frame page 0 1) zero_page
        (kernel_page n) phys m.tables m.entry zero_here f in
    (
      record { table = t; index = n % 1024 },
      s1,
      vm,
      e,
      g,
      record {
        identity = record {
          kheap = m.kheap;
          tables = tables;
          exact = subst (IsExact (n + 1)) (sym phys') exact;
          mapped = λ p h. elim (Bool-cases (p == n)) [
            | inl q ↦
                let same : n ≡ p = sym ((==_iff p n).0 q) in
                subst (λ k. page_at k s1.vm_page_dir vm ≡ some (kernel_page k)) same here
            | inr d ↦
                there p (λ q. cc (d, (==_iff p n).1 q))
                ∙ (m.keeps p).mapped (kernel_page p) (ok.mapped p (ground (arith, d, h)))
          ];
          above = λ p h.
              let other : p ≢ n = λ q. absurd (omega arith) in
              elim ((m.keeps p).vacant (ok.above p (omega arith))) [
                | inl v ↦ inl (there p other ∙ v)
                | inr v ↦ inr (there p other ∙ v)
              ];
        };
        kept = λ q x d h. there q d ∙ (m.keeps q).mapped x h;
        grows = m.grows;
        few = m.few;
        same = m.same;
      },
    )
