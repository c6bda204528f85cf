-- ===== src/Heap/Create.antt =====
-- A new heap: one hole, and the first block that is taken from it.
use os_implement.Prelude.{
  ℕ, zero, suc, ◌+◌, ◌-◌, ◌*◌, ◌%◌, ◌^◌, ◌≤◌, ◌<◌, ◌≡◌, ◌≢◌, inl, inr, ap, ◌∙◌, true, false, some,
  arith, get_elem?, ◌>>=◌,
}
use os_implement.Prelude.Mask.{bit_and-mask}
use os_implement.Paging.{PageDir, Vm}
use os_implement.SortedArray.{SortedArray, find_sorted_array}
use os_implement.Heap.Bytes.{Memory, IsBytes, IsKept}
use os_implement.Heap.{
  Heap, heap_index_size, add32, fits, find_hole_fit_first, create_heap, size_at,
}
use os_implement.Heap.Blocks.{alloc_at, alloc}
use os_implement.Heap.Layout.{HeaderAt}
use os_implement.Heap.Search.{FitsAt, find_hole_fit_first-first}
use os_implement.Heap.Place.{alloc_at-split}
use os_implement.Heap.Aligned.{offset_of, location_of, alloc_at-aligned}
use os_implement.Heap.Step.{HoleAt}
use os_implement.Heap.New.{IsNew, create_heap-IsNew}

found_first :
    (s : Heap) (x : ℕ)
    → get_elem? s.index.array 0 ≡ some x
    → s.index.size ≡ heap_index_size
    → find_sorted_array 0 s.index ≡ some x
unfolding find_sorted_array
found_first s x e f = rw (e, f)

fits_plain :
    (size header n : ℕ) (m : Memory) → size_at m header ≡ n → size ≤ n → fits size 0 m header ≡ true
unfolding fits
fits_plain size header n m e h = ground (arith, e)

-- With an even body nothing is taken off for the alignment.
fits_aligned :
    (size header n : ℕ) (m : Memory)
    → size_at m header ≡ n
    → size ≤ n
    → n < 2 ^ 32
    → header % 2 ≡ 0
    → fits size 1 m header ≡ true
unfolding fits
fits_aligned size header n m e h l even = ground (arith, e, bit_and-mask 1 (add32 header 12))

-- In a new heap the search finds the first place.
found_new :
    (size align start end : ℕ) (s : Heap)
    → IsNew s start end
    → fits size align s.memory start ≡ true
    → find_hole_fit_first size align s ≡ some (some 0)
found_new size align start end s new fit =
    let found = found_first s start new.first new.size in
    elim (find_hole_fit_first-first size align s (omega (arith, new.size, new.room))) [
      | inl (zero, e, _, _) ↦ e
      | inl (suc k, e, _, before) ↦ absurd (clash start found fit (before 0 (omega arith)))
      | inr (_, all) ↦ absurd (clash start found fit (all 0 (omega (arith, new.size))))
    ]
  where
    clash :
        (x : ℕ)
        → find_sorted_array 0 s.index ≡ some x
        → fits size align s.memory x ≡ true
        → FitsAt size align s 0 false
        → ⊥
    clash x found fit (y, e, f) = cc (found, fit, e, f)

alloc_found :
    (fuel size align iter : ℕ) (s : Heap)
    → find_hole_fit_first (add32 size 20) align s ≡ some (some iter)
    → alloc (suc fuel) size align s ≡ alloc_at iter size align s
unfolding alloc
alloc_found fuel size align iter s e = rw e

-- The first hole of a new heap.
new-HoleAt :
    (s : Heap) (start end : ℕ)
    → IsNew s start end
    → start ≤ end
    → end < 2 ^ 32
    → HoleAt s 0 start (end - start)
new-HoleAt s start end new h l = record {
  found = found_first s start new.first new.size;
  extent = new.hole.extent;
  fits = omega arith;
  room = omega (arith, new.size, new.room);
}

-- The first aligned block of a new heap, whose hole starts at an even address but not at the right place
-- in a page: it starts at the next page.
pub alloc_new_aligned :
    (fuel size start end : ℕ) (s : Heap)
    → IsNew s start end
    → end + 12 < 2 ^ 32
    → start % 2 ≡ 0
    → offset_of start ≢ 0
    → offset_of start ≤ 0x1000 - 20
    → start + 2 * size + 0x2000 ≤ end
    → (index : SortedArray) × (m : Memory) × (alloc (suc fuel) size 1 s
        ≡ some (location_of start + 12, record s { index = index; memory = m }))
      × HeaderAt m (location_of start) 0 (size + 20)
      × (IsBytes s.memory → IsBytes m)
      × IsKept start s.memory m
alloc_new_aligned fuel size start end s new small even out low big =
    let whole : add32 size 20 ≡ size + 20 = omega arith in
    let fit : fits (add32 size 20) 1 s.memory start ≡ true =
      fits_aligned (add32 size 20) start (end - start) s.memory new.hole.extent (omega arith)
        (omega arith) even in
    let (index, m, e, _, _, block, _, _, bytes, kept) =
      alloc_at-aligned 0 size start (end - start) s
        (new-HoleAt s start end new (omega arith) (omega arith)) out low (omega arith) (omega arith)
        (omega (arith, new.end_lem)) (omega (arith, new.cur, new.room)) in
    (
      index,
      m,
      alloc_found fuel size 1 0 s (found_new (add32 size 20) 1 start end s new fit) ∙ e,
      block,
      bytes,
      kept,
    )

-- A heap that is made at an even address, with its end below 2^32, and the first block that is taken
-- from it, unaligned and leaving at least 20 bytes: the heap need not grow, the block starts where the
-- hole started, and what is left behind it is the first hole of the index.
pub create_heap-alloc :
    (fuel size start end max supervisor readonly : ℕ) (phy : ℕ → ℕ) (m : Memory) (dir : PageDir)
    (vm : Vm)
    → start % 2 ≡ 0
    → start + 0x8_000c ≤ end
    → end < 2 ^ 32
    → start + 0x8_0000 + size + 40 ≤ end
    → (s' : Heap) × ((create_heap start end max supervisor readonly phy m dir vm
          >>= alloc (suc fuel) size 0)
        ≡ some (start + 0x8_000c, s'))
      × HeaderAt s'.memory (start + 0x8_0000) 0 (size + 20)
      × (get_elem? s'.index.array 0 ≡ some (start + 0x8_0000 + size + 20))
create_heap-alloc fuel size start end max supervisor readonly phy m dir vm even big small h =
    let body = start + 0x8_0000 in
    let (s, made, new, _, _, _, _) =
      create_heap-IsNew start end max supervisor readonly phy m dir vm even big small in
    let whole : add32 size 20 ≡ size + 20 = omega arith in
    let fit : fits (add32 size 20) 0 s.memory body ≡ true =
      fits_plain (add32 size 20) body (end - body) s.memory new.hole.extent (omega arith) in
    let hole = new-HoleAt s body end new (omega arith) small in
    let (s', taken, block, first, _, _, _) =
      alloc_at-split 0 size body (end - body) s hole (omega arith) (omega (arith, new.end_lem))
        (omega (arith, new.cur, new.room)) in
    let there : body + 12 ≡ start + 0x8_000c = omega arith in
    (
      s',
      ap (λ o. o >>= alloc (suc fuel) size 0) made
          ∙ alloc_found fuel size 0 0 s (found_new (add32 size 20) 0 body end s new fit)
          ∙ taken
          ∙ ap (λ k. some (k, s')) there,
      block,
      first,
    )
