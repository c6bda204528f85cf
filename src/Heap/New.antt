-- ===== src/Heap/New.antt =====
-- The heap as `create_heap` leaves it, with one hole.
use os_implement.Prelude.{
  ℕ, ◌+◌, ◌-◌, ◌*◌, ◌%◌, ◌^◌, ◌≤◌, ◌<◌, ◌≡◌, refl, sym, ap, ◌∙◌, true, some, ◌==◌, arith, length,
  length-replicate, get_elem?, bit_and,
}
use os_implement.Prelude.Mask.{bit_and-mask}
use os_implement.Paging.{PageDir, Vm}
use os_implement.SortedArray.{place_sorted_array}
use mathlib.Core.Path.{subst}
use os_implement.Heap.Bytes.{Memory, IsBytes, IsKept}
use os_implement.Heap.{
  Heap, heap_index_size, sub32, add32, put_header, header_cmp_less, insert_hole, create_heap,
}
use os_implement.Heap.Layout.{HeaderAt, put_header-HeaderAt, put_header-IsBytes, put_header-IsKept}
use os_implement.Heap.Place.{insert_hole_first}

placed :
    (n : ℕ) (f : ℕ → ℕ → ℕ)
    → ((place_sorted_array n f).cur ≡ 0)
      × ((place_sorted_array n f).size ≡ n)
      × (length (place_sorted_array n f).array ≡ n)
unfolding place_sorted_array
placed n f = (refl, refl, length-replicate {A = ℕ} n 0)

-- The heap as `create_heap` leaves it, with its first hole at `start`.
pub record IsNew (s : Heap) (start end : ℕ) : Type 0 where
  pub start_lem : s.start_address ≡ start
  pub end_lem : s.end_address ≡ end
  pub hole : HeaderAt s.memory start 1 (end - start)
  pub first : get_elem? s.index.array 0 ≡ some start
  pub cur : s.index.cur ≡ 1
  pub size : s.index.size ≡ heap_index_size
  pub room : length s.index.array ≡ heap_index_size

-- The heap before its first hole is put into the index.
abbrev bare : ℕ → ℕ → ℕ → ℕ → ℕ → (ℕ → ℕ) → Memory → PageDir → Vm → Heap
bare start end max supervisor readonly phy m dir vm = record {
  index = place_sorted_array heap_index_size (header_cmp_less m);
  start_address = start;
  end_address = end;
  max_address = max;
  supervisor = supervisor;
  readonly = readonly;
  table_phy = phy;
  memory = put_header 1 (sub32 end start) start m;
  vm_page_dir = dir;
  vm = vm;
}

create_step :
    (start end max supervisor readonly body : ℕ) (phy : ℕ → ℕ) (m : Memory) (dir : PageDir)
    (vm : Vm)
    → add32 start (4 * heap_index_size) ≡ body
    → (bit_and body 1 == 0) ≡ true
    → create_heap start end max supervisor readonly phy m dir vm
      ≡ insert_hole body (bare body end max supervisor readonly phy m dir vm)
unfolding create_heap
create_step start end max supervisor readonly body phy m dir vm e f = rw (e, f)

-- A new heap at an even address has one hole behind its index, up to its end, in the first place of the
-- index. For an address that is even but not the start of a page, nothing is rounded.
pub create_heap-IsNew :
    (start end max supervisor readonly : ℕ) (phy : ℕ → ℕ) (m : Memory) (dir : PageDir) (vm : Vm)
    → start % 2 ≡ 0
    → start + 0x8_000c ≤ end
    → end < 2 ^ 32
    → (s : Heap) × (create_heap start end max supervisor readonly phy m dir vm ≡ some s)
      × IsNew s (start + 0x8_0000) end
      × (s.vm ≡ vm)
      × (s.vm_page_dir ≡ dir)
      × (IsBytes m → IsBytes s.memory)
      × IsKept (start + 0x8_0000) m s.memory
create_heap-IsNew start end max supervisor readonly phy m dir vm even big small =
    let body = start + 0x8_0000 in
    let low : (bit_and body 1 == 0) ≡ true = ground (arith, bit_and-mask 1 body) in
    let s : Heap = bare body end max supervisor readonly phy m dir vm in
    let (cur, size, long) = placed heap_index_size (header_cmp_less m) in
    let (index, e, n, same, longer, first) = insert_hole_first body s (omega (arith, cur, long)) in
    let extent : sub32 end body ≡ end - body = omega arith in
    (
      record s { index = index },
      create_step start end max supervisor readonly body phy m dir vm (omega arith) low ∙ e,
      record {
        start_lem = refl;
        end_lem = refl;
        hole =
            subst (λ k. HeaderAt (put_header 1 k body m) body 1 (end - body)) (sym extent)
              (put_header-HeaderAt m body 1 (end - body) (omega arith) (omega arith) (omega arith));
        first = first;
        cur = n ∙ ap (λ k. k + 1) cur;
        size = same ∙ size;
        room = longer ∙ long;
      },
      refl,
      refl,
      put_header-IsBytes 1 (sub32 end body) body m,
      put_header-IsKept body 1 (sub32 end body) body m m (omega arith) (omega arith) (λ a h. refl),
    )
