-- ===== src/Heap/Blocks.antt =====
-- `alloc` and `free` of src/kheap.c.
use os_implement.Prelude.{
  ℕ, zero, suc, ◌+◌, ◌-◌, bit_and, not, ◌&&◌, ◌||◌, Option, none, some, ◌==◌, ltb, leb,
  if◌then◌else◌, ◌>>=◌,
}
use os_implement.SortedArray.{find_sorted_array, remove_sorted_array}
use os_implement.Heap.Bytes.{store8, load32, store32}
use os_implement.Heap.{
  Heap, heap_magic, sub32, add32, is_hole_at, magic_at, size_at, header_at, put_header, put_footer,
  find_hole_fit_first, insert_hole, expand, contract,
}

-- The hole with the highest address, as the loop over the whole index finds it: `value` and `idx`
-- are those so far.
unfoldable pub highest_hole : ℕ → ℕ → ℕ → Option ℕ → Heap → Option (Option ℕ)
highest_hole zero iter value idx s = some idx
highest_hole (suc rounds) iter value idx s = do
  tmp ← find_sorted_array iter s.index
  highest_hole rounds (iter + 1) (if ltb value tmp then tmp else value)
      (if ltb value tmp then some iter else idx) s

-- The branch of `alloc` where nothing fits, up to its recursive call.
unfoldable pub grow : ℕ → Heap → Option Heap
unfolding expand highest_hole insert_hole put_header put_footer
grow new_size s =
    let old_len = sub32 s.end_address s.start_address in
    do
      s' ← expand (add32 old_len new_size) s
      let more = sub32 (sub32 s'.end_address s'.start_address) old_len
      idx ← highest_hole s'.index.size 0 0 none s'
      elim idx [
        | none ↦
            let header = s.end_address in
            insert_hole header (record s' {
              memory =
                  put_footer header (sub32 (add32 header more) 8)
                    (put_header 1 more header s'.memory);
            })
        | some i ↦ do
          header ← find_sorted_array i s'.index
          let size = add32 (size_at s'.memory header) more
          some (record s' {
            memory =
                put_footer header (sub32 (add32 header size) 8)
                  (store32 s'.memory (header + 8) size);
          })
      ]

-- An aligned block in a hole whose body is not: the front of the hole stays one, and is not removed
-- from the index. The position and the size of the rest.
unfoldable pub split_front : ℕ → ℕ → Heap → ℕ × ℕ × Heap
unfolding put_header put_footer
split_front pos hole_size s =
    let offset = bit_and (add32 pos 12) 0xfff in
    let location = sub32 (add32 pos 0x1000) offset in
    let front = sub32 (0x1000 - 12) offset in
    let m = put_footer pos (sub32 location 8) (put_header 1 front pos s.memory) in
    (location, sub32 hole_size (size_at m pos), record s { memory = m })

-- What is left of the hole behind the block. Its footer is written at pos + hole_size - 8 - new_size.
unfoldable pub split_back : ℕ → ℕ → ℕ → ℕ → Heap → Option Heap
unfolding insert_hole put_header put_footer
split_back pos size new_size hole_size s =
    if leb hole_size new_size
    then some s
    else (let header = add32 (add32 pos 20) size in
        let footer = sub32 (sub32 (add32 pos hole_size) 8) new_size in
        let m = put_header 1 (sub32 hole_size new_size) header s.memory in
        insert_hole header (record s {
          memory = if ltb footer s.end_address then put_footer header footer m else m;
        }))

-- The rest of `alloc`, with the place of the hole in the index.
unfoldable pub alloc_at : ℕ → ℕ → ℕ → Heap → Option (ℕ × Heap)
unfolding split_front split_back put_header put_footer
alloc_at iter size page_align s = do
  pos ← find_sorted_array iter s.index
  let hole_size = size_at s.memory pos
  let spare = sub32 hole_size (add32 size 20)
  let size' = if ltb spare 20 then add32 size spare else size
  let new_size = if ltb spare 20 then hole_size else add32 size 20
  (pos', hole_size', s') ←
      if not (page_align == 0) && not (bit_and (add32 pos 12) 0xfff == 0)
      then some (split_front pos hole_size s)
      else (do
        index ← remove_sorted_array iter s.index
        some (pos, hole_size, record s { index = index }))
  s'' ← split_back pos' size' new_size hole_size' (record s' {
    memory = put_footer pos' (add32 (add32 pos' size') 12) (put_header 0 new_size pos' s'.memory);
  })
  some (add32 pos' 12, s'')

-- `alloc`; the fuel counts how often the heap may grow for one call.
unfoldable pub alloc : ℕ → ℕ → ℕ → Heap → Option (ℕ × Heap)
unfolding alloc_at grow find_hole_fit_first
alloc zero size page_align s = none
alloc (suc fuel) size page_align s = do
  found ← find_hole_fit_first (add32 size 20) page_align s
  elim found [
    | some iter ↦ alloc_at iter size page_align s
    | none ↦ do s' ← grow (add32 size 20) s; alloc fuel size page_align s'
  ]

-- The place of a header in the index, with the rounds left; past the end, the size.
unfoldable pub find_header : ℕ → ℕ → ℕ → Heap → Option ℕ
find_header zero iter header s = some iter
find_header (suc rounds) iter header s =
    let rest = find_header rounds (iter + 1) header s in
    do x ← find_sorted_array iter s.index; if x == header then some iter else rest

-- The last part of `free`, with the header of the hole next to it that was looked at.
unfoldable pub free_end : ℕ → ℕ → ℕ → Heap → Option Heap
unfolding contract find_header put_footer
free_end header footer test_header s = if not (add32 footer 8 == s.end_address) then some s else (do
  let old_len = sub32 s.end_address s.start_address
  (new_len, s') ← contract (sub32 header s.start_address) s
  let size = sub32 (size_at s'.memory header) (sub32 old_len new_len)
  if not (size == 0)
      then some (record s' {
        memory =
            put_footer header (sub32 (add32 header size) 8) (store32 s'.memory (header + 8) size);
      })
      else (do
        iter ← find_header s'.index.size 0 test_header s'
        if ltb iter s'.index.size
            then (do index ← remove_sorted_array iter s'.index; some (record s' { index = index }))
            else some s'))

-- `free`: `p = 0` in its test sets p to 0, so that the header is at 0 - 12 whatever p was.
unfoldable pub free : ℕ → Heap → Option Heap
unfolding free_end find_header insert_hole
free p s =
    let header = sub32 0 12 in
    let footer = sub32 (add32 header (size_at s.memory header)) 8 in
    let m = store8 s.memory header 1 in
    let test_footer = sub32 header 8 in
    let before = header_at m test_footer in
    let merge_before = is_hole_at m before == 1 && (load32 m test_footer == heap_magic) in
    let header' = if merge_before then before else header in
    let m' =
      if merge_before
      then (let m1 = store32 m (footer + 4) before in
          store32 m1 (before + 8) (add32 (size_at m1 before) (size_at m header)))
      else m in
    let test_header = add32 footer 8 in
    let merge_after = is_hole_at m' test_header == 1 && (magic_at m' test_header == heap_magic) in
    let after_size = size_at m' test_header in
    let footer' = if merge_after then sub32 (add32 test_header after_size) 8 else footer in
    let m'' =
      if merge_after
      then (let m1 = store32 m' (footer' + 4) header' in
          store32 m1 (header' + 8) (add32 (size_at m1 header') after_size))
      else m' in
    do
      let merged = record s { memory = m'' }
      s' ←
          if merge_after
          then (do
            iter ← find_header s.index.size 0 test_header merged
            index ← remove_sorted_array iter s.index
            some (record merged { index = index }))
          else some merged
      s'' ← free_end header' footer' test_header s'
      if merge_before || merge_after then some s'' else insert_hole header' s''
