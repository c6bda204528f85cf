-- ===== src/Heap/Tests.antt =====
-- A heap with one hole of 100 bytes at 0x1000, and a new heap at 0x10000.
use os_implement.Prelude.{
  ℕ, ◌*◌, replicate, ◌+◌, ◌-◌, ◌%◌, ◌<◌, ◌≡◌, ◌⊎◌, refl, true, false, Option, none, some, [], ◌∷◌,
  ltb, if◌then◌else◌, arith, get_elem?, ◌>>=◌,
}
use os_implement.Paging.{PageDir, Vm}
use os_implement.Paging.Empty.{empty_dir-IsTables, empty_dir-VacantAt}
use os_implement.Frames.{Phys, alloc_frame}
use os_implement.Paging.{zero_page}
use os_implement.Paging.Exact.{IsExact, kernel_page, zeros-IsExact, alloc_frame-IsExact}
use os_implement.Heap.Expand.{with_tables, PagesAdded, expand-PagesAdded}
use os_implement.SortedArray.{SortedArray, cmp, find_sorted_array}
use os_implement.Heap.Bytes.{Memory, IsBytes, IsKept, load8, load32, store8, store32, IsApart}
use os_implement.Heap.{
  Heap, put_header, put_footer, create_heap, find_hole_fit_first, round_size, expand,
}
use os_implement.Heap.Blocks.{alloc_at, alloc, split_back}
use os_implement.Heap.Layout.{HeaderAt, FooterAt, put_header-HeaderAt}
use os_implement.Heap.Search.{FitsAt, find_hole_fit_first-first}
use os_implement.Heap.Place.{alloc_at-whole, alloc_at-split}
use os_implement.Heap.Step.{HoleAt}
use os_implement.Heap.Create.{create_heap-alloc}
use os_implement.Heap.Aligned.{location_of, front_of, alloc_at-aligned}

abbrev no_dir : PageDir
no_dir = record { page_table = []; page_table_phy = []; page_dir_phy = 0 }

abbrev no_frames : Phys
no_frames = record { frames = replicate 512 0; printed = [] }

abbrev no_vm : Vm
no_vm = record { tables = []; phys = record { frames = []; printed = [] }; copies = [] }

abbrev blank_memory : Memory
blank_memory a = 0

abbrev one_hole : Heap
one_hole = record {
  index = record { array = 0x1000 ∷ 0 ∷ 0 ∷ []; size = 3; cur = 1; cmp_fun = cmp };
  start_address = 0x1000;
  end_address = 0x2000;
  max_address = 0x3000;
  supervisor = 1;
  readonly = 0;
  table_phy = λ t. 0;
  memory = put_header 1 100 0x1000 blank_memory;
  vm_page_dir = no_dir;
  vm = no_vm;
}

one_hole-HoleAt : HoleAt one_hole 0 0x1000 100
one_hole-HoleAt = record {
  found = unfold find_sorted_array in refl;
  extent =
      (put_header-HeaderAt blank_memory 0x1000 1 100 (omega arith) (omega arith)
        (omega arith)).extent;
  fits = omega arith;
  room = omega arith;
}

abbrev seen : ℕ × Heap → ℕ × Option ℕ × ℕ
seen (body, s) = (body, get_elem? s.index.array 0, load32 s.memory (0x1000 + 100 - 8 - 70))

-- The block and what is left of the hole, with the footer 70 bytes too low.
split_run :
    (alloc_at 0 50 0 one_hole >>= λ r. some (seen r)) ≡ some (0x100c, some 0x1046, 0x123890ab)
unfolding alloc_at split_back put_header put_footer load32 load8 store8 store32 find_sorted_array
    os_implement.SortedArray.remove_sorted_array os_implement.SortedArray.insert_sorted_array
split_run = refl

-- 4098 is no multiple of a page, and stays.
round_run : round_size 4098 ≡ 4098
round_run = refl

find_hole_first_example :
    ((k : ℕ) × (find_hole_fit_first 70 0 one_hole ≡ some (some k))
      × FitsAt 70 0 one_hole k true
      × ((j : ℕ) → j < k → FitsAt 70 0 one_hole j false))
    ⊎ ((find_hole_fit_first 70 0 one_hole ≡ some none)
        × ((j : ℕ) → j < 3 → FitsAt 70 0 one_hole j false))
find_hole_first_example = find_hole_fit_first-first 70 0 one_hole (omega arith)

alloc_whole_example :
    (s' : Heap) × (alloc_at 0 70 0 one_hole ≡ some (0x1000 + 12, s'))
    × HeaderAt s'.memory 0x1000 0 100
    × FooterAt s'.memory (0x1000 + 100 - 8) 0x1000
    × ((b : ℕ)
        → IsApart 0x1000 12 b 1
        → IsApart (0x1000 + 100 - 8) 8 b 1
        → load8 s'.memory b ≡ load8 one_hole.memory b)
    × ((j : ℕ)
        → find_sorted_array j s'.index
          ≡ find_sorted_array (if ltb j 0 then j else j + 1) one_hole.index)
alloc_whole_example =
    alloc_at-whole 0 70 0x1000 100 one_hole one_hole-HoleAt (omega arith) (omega arith)

alloc_split_example :
    (s' : Heap) × (alloc_at 0 50 0 one_hole ≡ some (0x1000 + 12, s'))
    × HeaderAt s'.memory 0x1000 0 (50 + 20)
    × (get_elem? s'.index.array 0 ≡ some (0x1000 + 50 + 20))
    × FooterAt s'.memory (0x1000 + 100 - 8 - (50 + 20)) (0x1000 + 50 + 20)
    × (IsApart (0x1000 + 100 - 8 - (50 + 20)) 8 (0x1000 + 50 + 20) 12
        → HeaderAt s'.memory (0x1000 + 50 + 20) 1 (100 - 50 - 20))
    × ((b : ℕ)
        → IsApart 0x1000 12 b 1
        → IsApart (0x1000 + 50 + 12) 20 b 1
        → IsApart (0x1000 + 100 - 8 - (50 + 20)) 8 b 1
        → load8 s'.memory b ≡ load8 one_hole.memory b)
alloc_split_example =
    alloc_at-split 0 50 0x1000 100 one_hole one_hole-HoleAt (omega arith) (omega arith)
      (omega arith)

create_alloc_example :
    (s' : Heap) × ((create_heap 0x10000 0x200000 0x400000 1 0 (λ t. 0) blank_memory no_dir no_vm
        >>= alloc 1 100 0)
      ≡ some (0x10000 + 0x8_000c, s'))
    × HeaderAt s'.memory (0x10000 + 0x8_0000) 0 (100 + 20)
    × (get_elem? s'.index.array 0 ≡ some (0x10000 + 0x8_0000 + 100 + 20))
create_alloc_example =
    create_heap-alloc 0 100 0x10000 0x200000 0x400000 1 0 (λ t. 0) blank_memory no_dir no_vm refl
      (omega arith) (omega arith) (omega arith)

-- The same heap with a hole of 0x4000 bytes, and its block of 100 bytes in the next page.
abbrev big_hole : Heap
big_hole = record one_hole {
  end_address = 0x5000;
  max_address = 0x6000;
  memory = put_header 1 0x4000 0x1000 blank_memory;
}

big_hole-HoleAt : HoleAt big_hole 0 0x1000 0x4000
big_hole-HoleAt = record {
  found = unfold find_sorted_array in refl;
  extent =
      (put_header-HeaderAt blank_memory 0x1000 1 0x4000 (omega arith) (omega arith)
        (omega arith)).extent;
  fits = omega arith;
  room = omega arith;
}

alloc_aligned_example :
    (index : SortedArray) × (m : Memory) × (alloc_at 0 100 1 big_hole
      ≡ some (location_of 0x1000 + 12, record big_hole { index = index; memory = m }))
    × ((location_of 0x1000 + 12) % 0x1000 ≡ 0)
    × HeaderAt m 0x1000 1 (front_of 0x1000)
    × HeaderAt m (location_of 0x1000) 0 (100 + 20)
    × HeaderAt m
        (location_of 0x1000 + 100 + 20)
        1
        (0x1000 + 0x4000 + 12 - (location_of 0x1000 + 100 + 20))
    × (get_elem? index.array 0 ≡ some (location_of 0x1000 + 100 + 20))
    × (IsBytes big_hole.memory → IsBytes m)
    × IsKept 0x1000 big_hole.memory m
alloc_aligned_example =
    alloc_at-aligned 0 100 0x1000 0x4000 big_hole big_hole-HoleAt (λ e. absurd (omega arith))
      (omega arith) (omega arith) (omega arith) (omega arith) (omega arith)

-- Frame 0 is used, and no other.
one_used :
    (s : Phys) × (alloc_frame zero_page 0 1 no_frames ≡ some (kernel_page 0, s)) × IsExact 1 s
one_used = alloc_frame-IsExact 0 no_frames (zeros-IsExact no_frames 512 refl refl) (omega arith)

-- A heap of one page at 0xc0000000 that grows to 0x2800 bytes, with nothing mapped.
abbrev bare_dir : PageDir
bare_dir = record {
  page_table = replicate 1024 none;
  page_table_phy = replicate 1024 0;
  page_dir_phy = 0;
}

abbrev bare_vm : Phys → Vm
bare_vm phys = record { tables = []; phys = phys; copies = [] }

abbrev small_heap : Phys → Heap
small_heap phys = record one_hole {
  start_address = 0xc000_0000;
  end_address = 0xc000_1000;
  max_address = 0xcfff_f000;
  supervisor = 0;
  vm_page_dir = bare_dir;
  vm = bare_vm phys;
}

expand_example :
    (dir : PageDir) × (vm : Vm) × (expand 0x2800 (small_heap one_used.0)
      ≡ some (record (with_tables dir vm (small_heap one_used.0)) {
        end_address = 0xc0000 * 0x1000 + round_size 0x2800;
      }))
    × PagesAdded (0xc0000 + 1) 2 1 bare_dir (bare_vm one_used.0) dir vm
expand_example =
    expand-PagesAdded 0x2800 0xc0000 1 2 1 (small_heap one_used.0)
      (record { start = refl; supervisor = refl; readonly = refl }) refl (omega arith) (omega arith)
      (omega arith) (omega arith) (omega arith)
      (empty_dir-IsTables 1024 bare_dir (bare_vm one_used.0) refl refl refl refl) one_used.2
      (λ j small. empty_dir-VacantAt 1024 bare_dir (bare_vm one_used.0) (0xc0000 + 1 + j) refl)
