-- ===== src/Malloc/Tests.antt =====
-- Three calls before there is a heap.
use os_implement.Prelude.{ℕ, ◌+◌, ◌≤◌, ◌≡◌, refl, Option, none, some, List, [], ◌∷◌, arith}
use os_implement.Malloc.{Kernel, malloc_s, malloc_a, malloc_ap}
use os_implement.Malloc.Placement.{make_calls-AreBlocks}
use os_implement.Malloc.Calls.{Call, plain, aligned, aligned_phy, make_calls, need, AreBlocks}

abbrev early : Kernel
early = record {
  kheap = none;
  placement_address = 0x103010;
  cur_vm_page_dir = record { page_table = []; page_table_phy = []; page_dir_phy = 0 };
}

abbrev three_calls : List Call
three_calls = plain 256 ∷ aligned_phy 0x2000 ∷ aligned 8 ∷ []

three_calls_run :
    make_calls 0 three_calls early
    ≡ some (
      (0x103010, none) ∷ (0x104000, some 0x104000) ∷ (0x106000, none) ∷ [],
      record early { placement_address = 0x106008 },
    )
unfolding make_calls malloc_s malloc_a malloc_ap
three_calls_run = refl

make_calls_example :
    (blocks : List (ℕ × Option ℕ)) × (k' : Kernel) × (make_calls 0 three_calls early
      ≡ some (blocks, k'))
    × (k'.kheap ≡ none)
    × (0x103010 ≤ k'.placement_address)
    × (k'.placement_address ≤ 0x103010 + need three_calls)
    × AreBlocks three_calls blocks 0x103010 k'.placement_address
make_calls_example = make_calls-AreBlocks 0 three_calls early refl (omega arith)
