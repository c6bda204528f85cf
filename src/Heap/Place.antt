-- ===== src/Heap/Place.antt =====
-- Where `alloc` puts a block that need not be aligned.
use os_implement.Prelude.{
  ℕ, suc, ◌+◌, ◌-◌, ◌≤◌, ◌<◌, ◌≡◌, inr, sym, ap, ◌∙◌, false, ◌||◌, some, List, [], ◌∷◌, ltb, leb,
  if◌then◌else◌, arith, length, take, get_elem?, ◌>>=◌,
}
use mathlib.Core.Path.{subst}
use os_implement.SortedArray.{SortedArray, is_negative, find_sorted_array}
use os_implement.SortedArray.Order.{insert_sorted_array-take}
use os_implement.SortedArray.Remove.{find-remove}
use os_implement.Heap.Bytes.{Memory, load8, IsApart, IsApart-within}
use os_implement.Heap.{Heap, put_header, put_footer, header_cmp_less, insert_hole}
use os_implement.Heap.Blocks.{split_back, alloc_at}
use os_implement.Heap.Layout.{
  HeaderAt, FooterAt, put_header-HeaderAt, put_footer-FooterAt, load8-put_footer, load8-put_header,
  HeaderAt-put_footer, HeaderAt-put_header,
}
use os_implement.Heap.Step.{HoleAt, with_block, alloc_at_step, split_back-none, split_back-some}

-- What is found lies inside the size of the index.
find_inside :
    (j : ℕ) (a : SortedArray) {x : ℕ} → find_sorted_array j a ≡ some x → leb a.size j ≡ false
unfolding find_sorted_array
find_inside j a h = ground (arith, h)

-- For a block that need not be aligned, a hole that is less than 20 bytes too large is used whole. The block has its header in front and its
-- footer at its end, no other byte changes, and its place leaves the index.
pub alloc_at-whole :
    (iter size pos n : ℕ) (s : Heap)
    → HoleAt s iter pos n
    → size + 20 ≤ n
    → n < size + 40
    → (s' : Heap) × (alloc_at iter size 0 s ≡ some (pos + 12, s'))
      × HeaderAt s'.memory pos 0 n
      × FooterAt s'.memory (pos + n - 8) pos
      × ((b : ℕ)
          → IsApart pos 12 b 1
          → IsApart (pos + n - 8) 8 b 1
          → load8 s'.memory b ≡ load8 s.memory b)
      × ((j : ℕ)
          → find_sorted_array j s'.index
            ≡ find_sorted_array (if ltb j iter then j else j + 1) s.index)
alloc_at-whole iter size pos n s h fit tight =
    let (index, e, _, _, _, places) = find-remove iter s.index h.room in
    let m = put_header 0 n pos s.memory in
    let foot : pos + (n - 20) + 12 ≡ pos + n - 8 = omega arith in
    (
      record s { index = index; memory = put_footer pos (pos + n - 8) m },
      alloc_at_step iter size pos n (n - 20) n index s h e fit (ground arith) (ground arith)
          ∙ ap
              (λ k.
                split_back pos (n - 20) n n
                  (record s { index = index; memory = put_footer pos k m })
                >>= λ s''. some (pos + 12, s''))
              foot
          ∙ ap (λ o. o >>= λ s''. some (pos + 12, s''))
              (split_back-none pos (n - 20) n
                (record s { index = index; memory = put_footer pos (pos + n - 8) m })),
      HeaderAt-put_footer m pos (pos + n - 8) pos 0 n
          (record {
            first = omega (arith, h.fits);
            second = omega (arith, h.fits);
            sides = inr (omega arith);
          })
          (put_header-HeaderAt s.memory pos 0 n (omega (arith, h.fits)) (omega arith)
            (omega (arith, h.fits))),
      put_footer-FooterAt m (pos + n - 8) pos (omega (arith, h.fits)) (omega (arith, h.fits)),
      λ b p q. load8-put_footer m pos (pos + n - 8) b q ∙ load8-put_header s.memory 0 n pos b p,
      λ j. places j ∙ ap (λ k. find_sorted_array k s.index) (inside j),
    )
  where
    inside :
        (j : ℕ)
        → (if ltb j iter || leb s.index.size iter then j else j + 1)
          ≡ (if ltb j iter then j else j + 1)
    inside j = ground (arith, find_inside iter s.index h.found)

never_negative : (m : Memory) (x y : ℕ) → is_negative (header_cmp_less m x y) ≡ false
never_negative m x y = ground arith

take_first : (n x : ℕ) (xs ys : List ℕ) → take (n + 1) xs ≡ x ∷ ys → get_elem? xs 0 ≡ some x
take_first n x [] ys h =
    let e : n + 1 ≡ suc n = omega arith in cc (ap (λ k. take {A = ℕ} k []) (sym e) ∙ h)
take_first n x (z ∷ zs) ys h =
    let e : n + 1 ≡ suc n = omega arith in let f = ap (λ k. take k (z ∷ zs)) (sym e) ∙ h in cc f

pub insert_hole_first :
    (header : ℕ) (s : Heap)
    → s.index.cur + 1 < length s.index.array
    → (index : SortedArray) × (insert_hole header s ≡ some (record s { index = index }))
      × (index.cur ≡ s.index.cur + 1)
      × (index.size ≡ s.index.size)
      × (length index.array ≡ length s.index.array)
      × (get_elem? index.array 0 ≡ some header)
unfolding insert_hole
insert_hole_first header s room =
    let (index, e, n, same, longer, stack) =
      insert_sorted_array-take header (record s.index { cmp_fun = header_cmp_less s.memory })
        (never_negative s.memory) room in
    (
      index,
      rw e,
      n,
      same,
      longer,
      take_first s.index.cur header index.array (take s.index.cur s.index.array)
          (ap (λ k. take k index.array) (sym n) ∙ stack),
    )

-- For a block that need not be aligned, a hole inside the heap that is at least 20 bytes too large is
-- split, if the index has room for one hole more. The block has its header in front; the rest, of
-- n - size - 20 bytes behind it, becomes the first hole of the index. But the footer of the rest is
-- written size + 20 bytes before the rest's end: that many bytes before the end of the hole. Where it
-- does not overlap the header of the rest, that header says a hole of n - size - 20 bytes; and no byte is
-- changed but those of the two headers and the two footers.
pub alloc_at-split :
    (iter size pos n : ℕ) (s : Heap)
    → HoleAt s iter pos n
    → size + 40 ≤ n
    → pos + n ≤ s.end_address
    → s.index.cur + 1 < length s.index.array
    → (s' : Heap) × (alloc_at iter size 0 s ≡ some (pos + 12, s'))
      × HeaderAt s'.memory pos 0 (size + 20)
      × (get_elem? s'.index.array 0 ≡ some (pos + size + 20))
      × FooterAt s'.memory (pos + n - 8 - (size + 20)) (pos + size + 20)
      × (IsApart (pos + n - 8 - (size + 20)) 8 (pos + size + 20) 12
          → HeaderAt s'.memory (pos + size + 20) 1 (n - size - 20))
      × ((b : ℕ)
          → IsApart pos 12 b 1
          → IsApart (pos + size + 12) 20 b 1
          → IsApart (pos + n - 8 - (size + 20)) 8 b 1
          → load8 s'.memory b ≡ load8 s.memory b)
alloc_at-split iter size pos n s h fit inside room =
    let (index, e, _, cur, longer, _) = find-remove iter s.index h.room in
    let spare = n - size - 20 in
    let rest = pos + size + 20 in
    let foot = pos + spare - 8 in
    let s1 = record s { index = index; memory = with_block pos size (size + 20) s.memory } in
    let m1 = put_header 1 spare rest s1.memory in
    let s2 = record s1 { memory = put_footer rest foot m1 } in
    let (index', f, _, _, _, first) = insert_hole_first rest s2 (omega (arith, longer, cur)) in
    let block : HeaderAt (put_header 0 (size + 20) pos s.memory) pos 0 (size + 20) =
      put_header-HeaderAt s.memory pos 0 (size + 20) (omega (arith, h.fits)) (omega arith)
        (omega (arith, h.fits)) in
    let there : foot ≡ pos + n - 8 - (size + 20) = omega arith in
    (
      record s2 { index = index' },
      alloc_at_step iter size pos n size (size + 20) index s h e (omega arith) (ground arith)
            (ground arith)
          ∙ ap (λ o. o >>= λ s''. some (pos + 12, s''))
              (split_back-some pos size n index' s1 (omega arith) h.fits (omega (arith, inside)) f
                (omega arith)),
      HeaderAt-put_footer m1 rest foot pos 0 (size + 20)
          (record {
            first = omega (arith, h.fits);
            second = omega (arith, h.fits);
            sides = inr (omega arith);
          })
          (HeaderAt-put_header s1.memory 1 spare rest pos 0 (size + 20)
            (record {
              first = omega (arith, h.fits);
              second = omega (arith, h.fits);
              sides = inr (omega arith);
            })
            (HeaderAt-put_footer (put_header 0 (size + 20) pos s.memory) pos (pos + size + 12) pos 0
              (size + 20)
              (record {
                first = omega (arith, h.fits);
                second = omega (arith, h.fits);
                sides = inr (omega arith);
              })
              block)),
      first,
      subst (λ k. FooterAt s2.memory k rest) there
          (put_footer-FooterAt m1 foot rest (omega (arith, h.fits)) (omega (arith, h.fits))),
      λ away.
          HeaderAt-put_footer m1 rest foot rest 1 spare
            (subst (λ k. IsApart k 8 rest 12) (sym there) away)
            (put_header-HeaderAt s1.memory rest 1 spare (omega (arith, h.fits)) (omega arith)
              (omega (arith, h.fits))),
      λ b front behind away.
          load8-put_footer m1 rest foot b (subst (λ k. IsApart k 8 b 1) (sym there) away)
          ∙ load8-put_header s1.memory 1 spare rest b
              (IsApart-within behind (omega arith) (omega arith))
          ∙ load8-put_footer (put_header 0 (size + 20) pos s.memory) pos (pos + size + 12) b
              (IsApart-within behind (omega arith) (omega arith))
          ∙ load8-put_header s.memory 0 (size + 20) pos b front,
    )
