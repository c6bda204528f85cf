-- ===== src/Paging/Clone.antt =====
-- `clone_dir` as a whole.
use os_implement.Prelude.{
  ℕ, ◌+◌, ◌%◌, ◌^◌, ◌≤◌, ◌<◌, ◌≡◌, refl, Option, some, List, arith, length, get_elem?,
}
use os_implement.Paging.{Vm, PageDir, clone_entries, clone_dir}
use os_implement.Paging.Entry.{IsMemory, left}
use os_implement.Paging.Table.{Extended}
use os_implement.Paging.Entries.{private_frames, EntriesCloned}
use os_implement.Paging.Loop.{clone_entries-LoopCloned}

-- A directory with as many entries as the kernel's, which point to tables that there are.
pub record IsDir (vm_page_dir dir : PageDir) (s : Vm) : Type 0 where
  pub size : length vm_page_dir.page_table ≡ length dir.page_table
  pub size_phy : length dir.page_table_phy ≡ length dir.page_table
  pub inside : (i t : ℕ) → get_elem? dir.page_table i ≡ some (some t) → t < length s.tables

clone_dir_step :
    (phy : ℕ → ℕ) (phy_addr : ℕ) (kernel src : PageDir) (outs : List (Option ℕ)) (out_ps : List ℕ)
    (s s' : Vm)
    → clone_entries phy kernel.page_table src.page_table src.page_table_phy s
      ≡ some (outs, out_ps, s')
    → clone_dir phy phy_addr kernel src s
      ≡ some (
        record {
          page_table = outs;
          page_table_phy = out_ps;
          page_dir_phy = (phy_addr + 0x1000) % 2 ^ 32;
        },
        s',
      )
unfolding clone_dir
clone_dir_step phy phy_addr kernel src outs out_ps s s' e = ground (arith, e)

-- Where the bitmap is well formed and marks frame 0 as used, the directory cloned has as many entries as
-- the kernel's, and they point to tables that there are: with as many free frames as the tables that are
-- not the kernel's have, `clone_dir` succeeds. The
-- tables that the kernel has are shared; any other is a new table with the clone of each page: it has
-- a frame where the page has, which was free before, which no other page of the table has, and which
-- is writable where the page's is. All tables that there were stay as they are.
pub clone_dir-EntriesCloned :
    (phy : ℕ → ℕ) (phy_addr : ℕ) (vm_page_dir src : PageDir) (s : Vm)
    → IsMemory s
    → IsDir vm_page_dir src s
    → private_frames s.tables vm_page_dir.page_table src.page_table ≤ left s
    → (dir : PageDir) × (s' : Vm) × (clone_dir phy phy_addr vm_page_dir src s ≡ some (dir, s'))
      × EntriesCloned phy s.tables vm_page_dir.page_table src.page_table src.page_table_phy
          dir.page_table dir.page_table_phy s s'
      × Extended (private_frames s.tables vm_page_dir.page_table src.page_table) s s'
clone_dir-EntriesCloned phy phy_addr vm_page_dir src s ok d room =
    let (outs, out_ps, s', e, x, c) =
      clone_entries-LoopCloned phy s.tables vm_page_dir.page_table src.page_table src.page_table_phy
        s ok (record { longer = omega arith; old = λ j h. refl }) d.size d.size_phy d.inside room in
    (
      record {
        page_table = outs;
        page_table_phy = out_ps;
        page_dir_phy = (phy_addr + 0x1000) % 2 ^ 32;
      },
      s',
      clone_dir_step phy phy_addr vm_page_dir src outs out_ps s s' e,
      c,
      x,
    )
