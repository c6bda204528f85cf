-- ===== src/Heap/Expand.antt =====
-- `expand`: the pages that the heap gets when it grows.
use os_implement.Prelude.{
  ℕ, zero, suc, ◌+◌, ◌-◌, ◌*◌, ◌^◌, ◌≤◌, ◌<◌, ◌≡◌, ◌≢◌, ◌⊎◌, inl, inr, refl, sym, ap, ◌∙◌, true,
  false, some, arith, Bool-cases, ltb, lt→ltb, ==_iff, ◌==◌, if◌then◌else◌,
}
use mathlib.Core.Path.{subst}
use os_implement.Frames.{Page, alloc_frame, frame_count}
use os_implement.Paging.{PageDir, Vm, Slot, zero_page, get_page, at_slot}
use os_implement.Paging.Lookup.{IsTables}
use os_implement.Paging.Mapping.{page_at, VacantAt, get_page_mapping}
use os_implement.Paging.Written.{at_slot_changed}
use os_implement.Paging.Exact.{IsExact, kernel_page, alloc_frame-IsExact}
use os_implement.Heap.{Heap, add32, sub32, round_size, heap_page, expand_loop, expand}

-- A heap of the kernel, open to the user and writable, from page a on.
pub record IsOpen (a : ℕ) (s : Heap) : Type 0 where
  pub start : s.start_address ≡ a * 0x1000
  pub supervisor : s.supervisor ≡ 0
  pub readonly : s.readonly ≡ 0

-- The heap s with other tables.
abbrev pub with_tables : PageDir → Vm → Heap → Heap
with_tables dir vm s = record s { vm_page_dir = dir; vm = vm }

heap_page_step :
    (addr : ℕ) (slot : Slot) (dir : PageDir) (vm : Vm) (s : Heap)
    → get_page s.table_phy addr true s.vm_page_dir s.vm ≡ some (some slot, dir, vm)
    → heap_page addr true s ≡ some (slot, with_tables dir vm s)
unfolding heap_page
heap_page_step addr slot dir vm s e = rw e refl

expand_step :
    (fuel a q n : ℕ) (slot : Slot) (dir : PageDir) (vm vm' : Vm) (s : Heap)
    → IsOpen a s
    → q * 0x1000 < n
    → a + q < 2 ^ 20 - 1
    → get_page s.table_phy ((a + q) * 0x1000) true s.vm_page_dir s.vm ≡ some (some slot, dir, vm)
    → at_slot (λ page. alloc_frame page 0 1) slot vm ≡ some vm'
    → expand_loop (suc fuel) (q * 0x1000) n s
      ≡ expand_loop fuel ((q + 1) * 0x1000) n (with_tables dir vm' s)
unfolding expand_loop
expand_step fuel a q n slot dir vm vm' s ok more low e f =
    let place : add32 s.start_address (q * 0x1000) ≡ (a + q) * 0x1000 = omega (arith, ok.start) in
    let next : add32 (q * 0x1000) 0x1000 ≡ (q + 1) * 0x1000 = omega arith in
    let page = heap_page_step ((a + q) * 0x1000) slot dir vm s e in
    let user : ◌≡◌ {A = ℕ} (if s.supervisor == 0 then 0 else 1) 0 = ground (arith, ok.supervisor) in
    let rw_flag : ◌≡◌ {A = ℕ} (if s.readonly == 0 then 1 else 0) 1 = ground (arith, ok.readonly) in
    rw (expand_loop, lt→ltb (q * 0x1000) n more, place, page, user, rw_flag, f, next) refl

expand_end : (fuel i n : ℕ) (s : Heap) → n ≤ i → expand_loop (suc fuel) i n s ≡ some s
unfolding expand_loop
expand_end fuel i n s h = let done : ltb i n ≡ false = ground arith in rw (expand_loop, done) refl

-- The pages from p on are mapped to the frames from u on, and no other page is changed.
pub record PagesAdded (p rounds u : ℕ) (dir : PageDir) (s : Vm) (dir' : PageDir) (s' : Vm)
    : Type 0 where
  pub tables : IsTables dir' s'
  pub exact : IsExact (u + rounds) s'.phys
  pub mapped : (j : ℕ) → j < rounds → page_at (p + j) dir' s' ≡ some (kernel_page (u + j))
  pub kept :
      (q : ℕ) (x : Page)
      → (q < p) ⊎ (p + rounds ≤ q)
      → page_at q dir s ≡ some x
      → page_at q dir' s' ≡ some x

expand_loop-PagesAdded :
    (rounds fuel a q n u : ℕ) (s : Heap)
    → IsOpen a s
    → rounds < fuel
    → n ≤ (q + rounds) * 0x1000
    → (q + rounds) * 0x1000 < n + 0x1000
    → a + q + rounds < 2 ^ 20
    → u + rounds ≤ frame_count
    → IsTables s.vm_page_dir s.vm
    → IsExact u s.vm.phys
    → ((j : ℕ) → j < rounds → VacantAt (a + q + j) s.vm_page_dir s.vm)
    → (dir : PageDir) × (vm : Vm) × (expand_loop fuel (q * 0x1000) n s
        ≡ some (with_tables dir vm s))
      × PagesAdded (a + q) rounds u s.vm_page_dir s.vm dir vm
expand_loop-PagesAdded rounds zero a q n u s ok enough covers tight low room tables exact vacant =
    absurd (omega arith)
expand_loop-PagesAdded zero (suc fuel) a q n u s ok enough covers tight low room tables exact
      vacant =
    (
      s.vm_page_dir,
      s.vm,
      expand_end fuel (q * 0x1000) n s (omega arith),
      record {
        tables = tables;
        exact = subst (λ k. IsExact k s.vm.phys) (omega arith) exact;
        mapped = λ j h. absurd (omega arith);
        kept = λ p x l h. h;
      },
    )
expand_loop-PagesAdded (suc rounds) (suc fuel) a q n u s ok enough covers tight low room tables
      exact vacant =
    let p = a + q in
    let here0 : p + 0 ≡ p = omega arith in
    let (t, dir1, s1, e, tables1, phys1, entry, clear, keeps) =
      get_page_mapping s.table_phy p s.vm_page_dir s.vm tables (omega arith) in
    let (phys, f, exact1) =
      alloc_frame-IsExact u s1.phys (subst (IsExact u) (sym phys1) exact) (omega arith) in
    let (s2, g, phys2, tables2, here, there) =
      at_slot_changed dir1 s1 p t (λ page. alloc_frame page 0 1) zero_page (kernel_page u) phys
        tables1 entry
        (clear (subst (λ k. VacantAt k s.vm_page_dir s.vm) here0 (vacant 0 (omega arith)))) f in
    let still : (j : ℕ) → j < rounds → VacantAt (a + (q + 1) + j) dir1 s2 = λ j less.
      let same : a + q + suc j ≡ a + (q + 1) + j = omega arith in
      let e' = there (a + q + suc j) (λ h. absurd (omega arith)) in
      let v : VacantAt (a + q + suc j) dir1 s2 =
        elim ((keeps (a + q + suc j)).vacant (vacant (suc j) (omega arith))) [
          | inl h ↦ inl (e' ∙ h)
          | inr h ↦ inr (e' ∙ h)
        ] in
      subst (λ k. VacantAt k dir1 s2) same v in
    let h1 : Heap = with_tables dir1 s2 s in
    let (dir', s', h, r) =
      expand_loop-PagesAdded rounds fuel a (q + 1) n (u + 1) h1
        (record { start = ok.start; supervisor = ok.supervisor; readonly = ok.readonly })
        (omega arith) (omega arith) (omega arith) (omega arith) (omega arith) tables2
        (subst (IsExact (u + 1)) (sym phys2) exact1) still in
    (
      dir',
      s',
      expand_step fuel a q n _ dir1 s1 s2 s ok (omega arith) (omega arith) e g ∙ h,
      record {
        tables = r.tables;
        exact = subst (λ k. IsExact k s'.phys) (omega arith) r.exact;
        mapped = λ j less. elim (Bool-cases (j == 0)) [
          | inl z ↦
              let first : j ≡ 0 = (==_iff j 0).0 z in
              let place : a + q + j ≡ p = omega arith in
              let frame : u ≡ u + j = omega arith in
              ap (λ i. page_at i dir' s') place
              ∙ r.kept p (kernel_page u) (inl (omega arith)) here
              ∙ ap (λ i. some (kernel_page i)) frame
          | inr d ↦
              let later : j ≢ 0 = λ z. cc (d, (==_iff j 0).1 z) in
              let place : a + q + j ≡ a + (q + 1) + (j - 1) = omega arith in
              let frame : u + 1 + (j - 1) ≡ u + j = omega arith in
              ap (λ i. page_at i dir' s') place
              ∙ r.mapped (j - 1) (omega arith)
              ∙ ap (λ i. some (kernel_page i)) frame
        ];
        kept = λ k x l z.
            r.kept k x (elim l [ inl b ↦ inl (omega arith) | inr b ↦ inr (omega arith) ])
              (there k
                  (λ same. elim l [ inl b ↦ absurd (omega arith) | inr b ↦ absurd (omega arith) ])
                ∙ (keeps k).mapped x z);
      },
    )

-- A heap that is open to the user and writable, from page a on and of o pages, and a size of at least
-- those that ends below the last page of addresses, in a directory of 1024 entries whose tables are all
-- different and whole, while the frames that are used are the first u, at least one, with enough behind
-- them for the pages that are missing, in which nothing is mapped: `expand` gives each of them the next
-- frame, in order, keeps every other page and all the rest of the heap, and moves the end to the size,
-- which is rounded only where it is odd.
pub expand-PagesAdded :
    (new_size a o rounds u : ℕ) (s : Heap)
    → IsOpen a s
    → s.end_address ≡ (a + o) * 0x1000
    → round_size new_size ≤ (o + rounds) * 0x1000
    → (o + rounds) * 0x1000 < round_size new_size + 0x1000
    → a + o + rounds < 2 ^ 20
    → 0 < u
    → u + rounds ≤ frame_count
    → IsTables s.vm_page_dir s.vm
    → IsExact u s.vm.phys
    → ((j : ℕ) → j < rounds → VacantAt (a + o + j) s.vm_page_dir s.vm)
    → (dir : PageDir) × (vm : Vm) × (expand new_size s
        ≡ some (record (with_tables dir vm s) { end_address = a * 0x1000 + round_size new_size }))
      × PagesAdded (a + o) rounds u s.vm_page_dir s.vm dir vm
unfolding expand
expand-PagesAdded new_size a o rounds u s ok end covers tight low some_used room tables exact
      vacant =
    let n = round_size new_size in
    let (dir, vm, e, added) =
      expand_loop-PagesAdded rounds (2 ^ 20 + 1) a o n u s ok (omega arith) covers tight low room
        tables exact vacant in
    let from : sub32 s.end_address s.start_address ≡ o * 0x1000 = omega (arith, end, ok.start) in
    let to : add32 s.start_address n ≡ a * 0x1000 + n = omega (arith, ok.start) in
    (dir, vm, rw (from, e, to) refl, added)
