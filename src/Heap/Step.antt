-- ===== src/Heap/Step.antt =====
-- The steps of `alloc` on a hole that is found, for a block that need not be aligned.
use os_implement.Prelude.{
  ℕ, ◌+◌, ◌-◌, ◌^◌, ◌≤◌, ◌<◌, ◌≡◌, false, some, ltb, leb, if◌then◌else◌, arith, length, lt→ltb,
  ◌>>=◌,
}
use os_implement.SortedArray.{SortedArray, find_sorted_array, remove_sorted_array}
use os_implement.Heap.Bytes.{Memory}
use os_implement.Heap.{Heap, sub32, add32, size_at, put_header, put_footer, insert_hole}
use os_implement.Heap.Blocks.{split_back, alloc_at}

-- The hole at a place of the index, of n bytes from pos on.
pub record HoleAt (s : Heap) (iter pos n : ℕ) : Type 0 where
  pub found : find_sorted_array iter s.index ≡ some pos
  pub extent : size_at s.memory pos ≡ n
  pub fits : pos + n < 2 ^ 32
  pub room : s.index.size ≤ length s.index.array

-- The memory after a block was put at pos.
abbrev pub with_block : ℕ → ℕ → ℕ → Memory → Memory
with_block pos size new_size m = put_footer pos (pos + size + 12) (put_header 0 new_size pos m)

-- `alloc_at`, from what it looks up.
pub alloc_at_step :
    (iter size pos n size' new_size : ℕ) (index : SortedArray) (s : Heap)
    → HoleAt s iter pos n
    → remove_sorted_array iter s.index ≡ some index
    → size + 20 ≤ n
    → size' ≡ (if ltb n (size + 40) then n - 20 else size)
    → new_size ≡ (if ltb n (size + 40) then n else size + 20)
    → alloc_at iter size 0 s ≡ (
        split_back pos size' new_size n
          (record s { index = index; memory = with_block pos size' new_size s.memory })
        >>= λ s''. some (pos + 12, s''))
unfolding alloc_at
alloc_at_step iter size pos n size' new_size index s h e fit a b =
    let spare : sub32 n (add32 size 20) ≡ n - size - 20 = omega (arith, h.fits) in
    let small : ltb (n - size - 20) 20 ≡ ltb n (size + 40) = ground arith in
    let grown : (if ltb n (size + 40) then add32 size (n - size - 20) else size) ≡ size' =
      ground (arith, h.fits) in
    let total : (if ltb n (size + 40) then n else add32 size 20) ≡ new_size =
      ground (arith, h.fits) in
    let body : add32 pos 12 ≡ pos + 12 = omega (arith, h.fits) in
    let foot : add32 (add32 pos size') 12 ≡ pos + size' + 12 = ground (arith, h.fits) in
    rw (h.found, h.extent, e, spare, small, grown, total, body, foot)

pub split_back-none : (pos size n : ℕ) (s : Heap) → split_back pos size n n s ≡ some s
unfolding split_back
split_back-none pos size n s = ground arith

pub split_back-some :
    (pos size n : ℕ) (index : SortedArray) (s : Heap)
    → size + 20 < n
    → pos + n < 2 ^ 32
    → pos + (n - size - 20) - 8 < s.end_address
    → insert_hole (pos + size + 20) (record s {
      memory =
          put_footer
            (pos + size + 20)
            (pos + (n - size - 20) - 8)
            (put_header 1 (n - size - 20) (pos + size + 20) s.memory);
    })
      ≡ some (record s {
        index = index;
        memory =
            put_footer
              (pos + size + 20)
              (pos + (n - size - 20) - 8)
              (put_header 1 (n - size - 20) (pos + size + 20) s.memory);
      })
    → 8 ≤ pos + (n - size - 20)
    → split_back pos size (size + 20) n s
      ≡ some (record s {
        index = index;
        memory =
            put_footer
              (pos + size + 20)
              (pos + (n - size - 20) - 8)
              (put_header 1 (n - size - 20) (pos + size + 20) s.memory);
      })
unfolding split_back
split_back-some pos size n index s h l k e r =
    let a : add32 (add32 pos 20) size ≡ pos + size + 20 = omega arith in
    let b : sub32 (sub32 (add32 pos n) 8) (size + 20) ≡ pos + (n - size - 20) - 8 = omega arith in
    let c : sub32 n (size + 20) ≡ n - size - 20 = omega arith in
    rw
      (
        le→leb_false n (size + 20) (omega arith),
        a,
        b,
        c,
        lt→ltb (pos + (n - size - 20) - 8) s.end_address k,
      )
      e
  where
    le→leb_false : (x y : ℕ) → y < x → leb x y ≡ false
    le→leb_false x y h = ground arith
