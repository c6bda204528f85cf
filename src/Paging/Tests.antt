-- ===== src/Paging/Tests.antt =====
-- A directory with one table of the kernel and one of its own, and an empty one.
use os_implement.Prelude.{
  ℕ, zero, suc, ◌+◌, ◌*◌, ◌<◌, ◌≡◌, refl, none, some, [], ◌∷◌, arith, get_elem?, replicate,
  eq_of_some,
}
use os_implement.Frames.{Page}
use os_implement.Frames.Count.{free_count}
use os_implement.Frames.Tests.{some_used, some_used-IsPhys}
use os_implement.Paging.{PageDir, Vm, zero_page, clone_dir}
use os_implement.Paging.Entry.{IsMemory, left}
use os_implement.Paging.Table.{Extended}
use os_implement.Paging.Entries.{private_frames, EntriesCloned}
use os_implement.Paging.Clone.{IsDir, clone_dir-EntriesCloned}

abbrev phy : ℕ → ℕ
phy t = 0x200000 + 0x1000 * t

abbrev own_page : Page
own_page = record zero_page { valid = 1; rw = 1; frame = 5 }

abbrev memory : Vm
memory = record {
  tables = (own_page ∷ []) ∷ (zero_page ∷ own_page ∷ []) ∷ [];
  phys = some_used;
  copies = [];
}

memory-IsMemory : IsMemory memory
memory-IsMemory = record { phys = some_used-IsPhys; zero_used = refl }

memory_left : left memory ≡ 4088
unfolding free_count
memory_left = refl

abbrev kernel_dir : PageDir
kernel_dir = record {
  page_table = some 0 ∷ none ∷ none ∷ [];
  page_table_phy = 0x200007 ∷ 0 ∷ 0 ∷ [];
  page_dir_phy = 0;
}

abbrev process_dir : PageDir
process_dir = record {
  page_table = some 0 ∷ some 1 ∷ none ∷ [];
  page_table_phy = 0x200007 ∷ 0x201007 ∷ 0 ∷ [];
  page_dir_phy = 0;
}

process_dir-IsDir : IsDir kernel_dir process_dir memory
process_dir-IsDir = record { size = refl; size_phy = refl; inside = λ i t e. inside i t e }
  where
    inside : (i t : ℕ) → get_elem? process_dir.page_table i ≡ some (some t) → t < 2
    inside zero t e = omega (arith, eq_of_some (eq_of_some e))
    inside (suc zero) t e = omega (arith, eq_of_some (eq_of_some e))
    inside (suc (suc zero)) t e = cc
    inside (suc (suc (suc i))) t e = cc

clone_dir_example :
    (dir : PageDir) × (s' : Vm) × (clone_dir phy 0x300000 kernel_dir process_dir memory
      ≡ some (dir, s'))
    × EntriesCloned phy memory.tables kernel_dir.page_table process_dir.page_table
        process_dir.page_table_phy dir.page_table dir.page_table_phy memory s'
    × Extended (private_frames memory.tables kernel_dir.page_table process_dir.page_table) memory s'
clone_dir_example =
    clone_dir-EntriesCloned phy 0x300000 kernel_dir process_dir memory memory-IsMemory
      process_dir-IsDir (omega (arith, memory_left))

-- A directory of 1024 entries without a table.
abbrev empty_dir : PageDir
empty_dir = record {
  page_table = replicate 1024 none;
  page_table_phy = replicate 1024 0;
  page_dir_phy = 0;
}

abbrev no_tables : Vm
no_tables = record { tables = []; phys = some_used; copies = [] }
