-- ===== src/Heap/Aligned.antt =====
-- Where `alloc` puts a block that is to start at a page, in a hole whose body does not.
use os_implement.Prelude.{
  ℕ, ◌+◌, ◌-◌, ◌*◌, ◌%◌, ◌^◌, ◌≤◌, ◌<◌, ◌≡◌, refl, ◌∙◌, ◌≢◌, false, some, ltb, arith, length,
  get_elem?, ==_ne, bit_and, ◌>>=◌,
}
use os_implement.Prelude.Mask.{bit_and-mask}
use mathlib.Core.Path.{subst}
use os_implement.SortedArray.{SortedArray}
use os_implement.Heap.Bytes.{Memory, IsBytes, IsKept, IsApart-above}
use os_implement.Heap.{Heap, sub32, add32, size_at, put_header, put_footer}
use os_implement.Heap.Blocks.{split_front, split_back, alloc_at}
use os_implement.Heap.Layout.{
  HeaderAt, put_both-HeaderAt, HeaderAt-put_both, put_both-IsBytes, put_both-IsKept,
}
use os_implement.Heap.Step.{HoleAt, with_block, split_back-some}
use os_implement.Heap.Place.{insert_hole_first}

-- How far the body of a hole lies behind the start of its page, what the front of the hole is said to
-- have, and where the block goes.
abbrev pub offset_of : ℕ → ℕ
offset_of pos = (pos + 12) % 0x1000

abbrev pub front_of : ℕ → ℕ
front_of pos = 0x1000 - 12 - offset_of pos

abbrev pub location_of : ℕ → ℕ
location_of pos = pos + 0x1000 - offset_of pos

abbrev with_front : ℕ → Memory → Memory
with_front pos m = put_footer pos (location_of pos - 8) (put_header 1 (front_of pos) pos m)

split_front_lem :
    (pos n : ℕ) (s : Heap)
    → pos + n < 2 ^ 32
    → 0x2000 ≤ n
    → offset_of pos ≤ 0x1000 - 20
    → split_front pos n s
      ≡ (location_of pos, n - front_of pos, record s { memory = with_front pos s.memory })
unfolding split_front
split_front_lem pos n s fits big low =
    let off : bit_and (add32 pos 12) 0xfff ≡ offset_of pos =
      omega (arith, bit_and-mask 12 (add32 pos 12)) in
    let place : sub32 (add32 pos 0x1000) (offset_of pos) ≡ location_of pos = omega arith in
    let front : sub32 (0x1000 - 12) (offset_of pos) ≡ front_of pos = omega arith in
    let foot : sub32 (location_of pos) 8 ≡ location_of pos - 8 = omega arith in
    let rest : sub32 n (front_of pos) ≡ n - front_of pos = omega arith in
    let kept : size_at (with_front pos s.memory) pos ≡ front_of pos =
      (put_both-HeaderAt s.memory 1 (front_of pos) pos (location_of pos - 8) (omega arith)
        (omega arith) (omega arith) (omega arith)).extent in
    rw (off, place, front, foot, kept, rest)

alloc_at_front :
    (iter size pos n : ℕ) (s : Heap)
    → HoleAt s iter pos n
    → offset_of pos ≢ 0
    → size + 40 ≤ n
    → alloc_at iter size 1 s ≡ (
        let (pos', hole_size, s') = split_front pos n s in
        (split_back pos' size (size + 20) hole_size (record s' {
          memory =
              put_footer pos'
                (add32 (add32 pos' size) 12)
                (put_header 0 (size + 20) pos' s'.memory);
        })
          >>= λ s''. some (add32 pos' 12, s'')))
unfolding alloc_at
alloc_at_front iter size pos n s h out fit =
    let spare : sub32 n (add32 size 20) ≡ n - size - 20 = omega (arith, h.fits) in
    let small : ltb (n - size - 20) 20 ≡ false = ground arith in
    let total : add32 size 20 ≡ size + 20 = omega (arith, h.fits) in
    let off : bit_and (add32 pos 12) 0xfff ≡ offset_of pos =
      omega (arith, bit_and-mask 12 (add32 pos 12), h.fits) in
    rw (h.found, h.extent, spare, small, off, ==_ne (offset_of pos) 0 out, total)

-- A hole whose body does not start at a page, nor in the last 19 bytes of one, which has room for two
-- pages and twice the block and ends in the heap and more than 12 bytes below 2^32, with room in the index
-- for one hole more: an aligned block starts at the next page. The front of the hole stays a
-- hole; the rest behind the block becomes the first hole of the index. But the front says 12 bytes less
-- than it has, so that the rest says 12 bytes more: it ends 12 bytes behind the end of the hole. The
-- memory below the hole is kept.
pub alloc_at-aligned :
    (iter size pos n : ℕ) (s : Heap)
    → HoleAt s iter pos n
    → offset_of pos ≢ 0
    → offset_of pos ≤ 0x1000 - 20
    → 2 * size + 0x2000 ≤ n
    → pos + n + 12 < 2 ^ 32
    → pos + n ≤ s.end_address
    → s.index.cur + 1 < length s.index.array
    → (index : SortedArray) × (m : Memory) × (alloc_at iter size 1 s
        ≡ some (location_of pos + 12, record s { index = index; memory = m }))
      × ((location_of pos + 12) % 0x1000 ≡ 0)
      × HeaderAt m pos 1 (front_of pos)
      × HeaderAt m (location_of pos) 0 (size + 20)
      × HeaderAt m (location_of pos + size + 20) 1 (pos + n + 12 - (location_of pos + size + 20))
      × (get_elem? index.array 0 ≡ some (location_of pos + size + 20))
      × (IsBytes s.memory → IsBytes m)
      × IsKept pos s.memory m
alloc_at-aligned iter size pos n s h out low big fits inside room =
    let place = location_of pos in
    let hole = n - front_of pos in
    let rest = place + size + 20 in
    let spare = hole - size - 20 in
    let foot = place + spare - 8 in
    let m1 = with_front pos s.memory in
    let m2 = with_block place size (size + 20) m1 in
    let s2 = record s { memory = m2 } in
    let m3 = put_header 1 spare rest m2 in
    let m4 = put_footer rest foot m3 in
    let (index, e, _, _, _, first) = insert_hole_first rest (record s { memory = m4 }) room in
    let back =
      split_back-some place size hole index s2 (omega arith) (omega arith) (omega arith) e
        (omega arith) in
    let over : spare ≡ pos + n + 12 - rest = omega arith in
    let body : add32 place 12 ≡ place + 12 = omega arith in
    let end : add32 (add32 place size) 12 ≡ place + size + 12 = omega arith in
    (
      index,
      m4,
      alloc_at_front iter size pos n s h out (omega arith)
          ∙ rw (split_front_lem pos n s (omega arith) (omega arith) low, body, end, back) refl,
      omega arith,
      HeaderAt-put_both m2 1 spare rest foot pos 1 (front_of pos)
          (IsApart-above (omega arith) (omega arith)) (IsApart-above (omega arith) (omega arith))
          (HeaderAt-put_both m1 0 (size + 20) place (place + size + 12) pos 1 (front_of pos)
            (IsApart-above (omega arith) (omega arith)) (IsApart-above (omega arith) (omega arith))
            (put_both-HeaderAt s.memory 1 (front_of pos) pos (place - 8) (omega arith) (omega arith)
              (omega arith) (omega arith))),
      HeaderAt-put_both m2 1 spare rest foot place 0 (size + 20)
          (IsApart-above (omega arith) (omega arith)) (IsApart-above (omega arith) (omega arith))
          (put_both-HeaderAt m1 0 (size + 20) place (place + size + 12) (omega arith) (omega arith)
            (omega arith) (omega arith)),
      subst (HeaderAt m4 rest 1) over (
          put_both-HeaderAt m2 1 spare rest foot (omega arith) (omega arith) (omega arith)
            (omega arith)),
      first,
      λ bytes. put_both-IsBytes 1 spare rest foot m2 (
          put_both-IsBytes 0 (size + 20) place (place + size + 12) m1
            (put_both-IsBytes 1 (front_of pos) pos (place - 8) s.memory bytes)),
      put_both-IsKept pos 1 spare rest foot s.memory m2 (omega arith) (omega arith) (omega arith)
          (omega arith)
          (put_both-IsKept pos 0 (size + 20) place (place + size + 12) s.memory m1 (omega arith)
            (omega arith) (omega arith) (omega arith)
            (put_both-IsKept pos 1 (front_of pos) pos (place - 8) s.memory s.memory (omega arith)
              (omega arith) (omega arith) (omega arith) (λ a h. refl))),
    )
