-- ===== src/Paging.antt =====
-- The page tables of src/page.c. The tables are the ones made so far, in order; a pointer to one is
-- its number, and NULL is `none`. `phy` gives the physical address that `_malloc_ap` returns for a
-- table. What `copy_page_phy` copies is the list of its arguments, oldest first.
pub mod Lookup
pub mod Mapping
pub mod Written
pub mod Empty
pub mod Exact
pub mod Entry
pub mod Pages
pub mod Table
pub mod Entries
pub mod Loop
pub mod Clone
pub mod Release
mod Tests
use os_implement.Prelude.{
  ℕ, zero, suc, ◌+◌, ◌*◌, ◌/◌, ◌%◌, ◌^◌, bit_or, Bool, true, false, Option, none, some, List, [],
  ◌∷◌, ◌++◌, ◌==◌, if◌then◌else◌, get_elem?, set, replicate, length, ◌>>=◌,
}
use os_implement.Frames.{Page, Phys, alloc_frame, free_frame}

pub record PageDir : Type 0 where
  pub page_table : List (Option ℕ)
  pub page_table_phy : List ℕ
  pub page_dir_phy : ℕ

pub record Vm : Type 0 where
  pub tables : List (List Page)
  pub phys : Phys
  pub copies : List (ℕ × ℕ)

-- A `page_struct*`: an entry of a table.
pub record Slot : Type 0 where
  pub table : ℕ
  pub index : ℕ

-- What `memset` leaves of an entry.
abbrev pub zero_page : Page
zero_page = record { valid = 0; rw = 0; user = 0; accessed = 0; dirty = 0; unused = 0; frame = 0 }

module _ (phy : ℕ → ℕ) where
  -- The slot that is found or made, `none` inside for NULL, with the directory.
  unfoldable pub get_page : ℕ → Bool → PageDir → Vm → Option (Option Slot × PageDir × Vm)
  get_page addr make dir s =
      let page = addr / 0x1000 in
      let index = page / 1024 in
      do
        entry ← get_elem? dir.page_table index
        elim entry [
          | some t ↦ some (some (record { table = t; index = page % 1024 }), dir, s)
          | none ↦
              if make
              then some (
                some (record { table = length s.tables; index = page % 1024 }),
                record dir {
                  page_table = set dir.page_table index (some (length s.tables));
                  page_table_phy =
                      set dir.page_table_phy index (bit_or (phy (length s.tables)) 0x7);
                },
                record s { tables = s.tables ++ replicate 1024 zero_page ∷ [] },
              )
              else some (none, dir, s)
        ]

-- A call of `alloc_frame` or `free_frame` on the entry of a slot.
unfoldable pub at_slot : (Page → Phys → Option (Page × Phys)) → Slot → Vm → Option Vm
at_slot f slot s = do
  pages ← get_elem? s.tables slot.table
  page ← get_elem? pages slot.index
  (page', phys) ← f page s.phys
  some (record s { tables = set s.tables slot.table (set pages slot.index page'); phys = phys })

-- `if (src->pages[i].valid) table->pages[i].valid = 1`, and so on for the other flags.
abbrev pub copy_flag : ℕ → ℕ → ℕ
copy_flag from to = if from == 0 then to else 1

-- One round of `clone_table`: the entry of the new table, which starts as zeros.
unfoldable pub clone_page : Page → Vm → Option (Page × Vm)
unfolding alloc_frame
clone_page src s = if src.frame == 0 then some (zero_page, s) else (do
  (page, phys) ← alloc_frame zero_page 0 0 s.phys
  some (
    record page {
      valid = copy_flag src.valid page.valid;
      rw = copy_flag src.rw page.rw;
      user = copy_flag src.user page.user;
      accessed = copy_flag src.accessed page.accessed;
      dirty = copy_flag src.dirty page.dirty;
    },
    record s {
      phys = phys;
      copies = s.copies ++ (src.frame * 0x1000 % 2 ^ 32, page.frame * 0x1000 % 2 ^ 32) ∷ [];
    },
  ))

unfoldable pub clone_pages : List Page → Vm → Option (List Page × Vm)
unfolding clone_page
clone_pages [] s = some ([], s)
clone_pages (src ∷ srcs) s = do
  (page, s') ← clone_page src s
  (pages, s'') ← clone_pages srcs s'
  some (page ∷ pages, s'')

-- The new table joins the others when it is complete: nothing else is made in between.
unfoldable pub clone_table : ℕ → Vm → Option (ℕ × Vm)
unfolding clone_pages
clone_table src s = do
  srcs ← get_elem? s.tables src
  (pages, s') ← clone_pages srcs s
  some (length s'.tables, record s' { tables = s'.tables ++ pages ∷ [] })

-- Does an entry of `vm_page_dir` point to the table?
abbrev pub is_kernel_table : Option ℕ → ℕ → Bool
is_kernel_table none t = false
is_kernel_table (some k) t = k == t

module _ (phy : ℕ → ℕ) where
  -- The loop of `clone_dir`, over the entries of vm_page_dir and of the directory cloned.
  unfoldable pub clone_entries :
      List (Option ℕ) → List (Option ℕ) → List ℕ → Vm → Option (List (Option ℕ) × List ℕ × Vm)
  unfolding clone_table
  clone_entries [] [] [] s = some ([], [], s)
  clone_entries (k ∷ kernel) (none ∷ srcs) (p ∷ phys) s = do
    (tables, addresses, s') ← clone_entries kernel srcs phys s
    some (none ∷ tables, 0 ∷ addresses, s')
  clone_entries (k ∷ kernel) (some t ∷ srcs) (p ∷ phys) s = do
    (t', p', s') ←
        if is_kernel_table k t
        then some (t, p, s)
        else (do (copy, s') ← clone_table t s; some (copy, bit_or (phy copy) 0x7, s'))
    (tables, addresses, s'') ← clone_entries kernel srcs phys s'
    some (some t' ∷ tables, p' ∷ addresses, s'')
  clone_entries _ _ _ s = none

  -- `clone_dir`, with vm_page_dir and the physical address of the new directory.
  unfoldable pub clone_dir : ℕ → PageDir → PageDir → Vm → Option (PageDir × Vm)
  unfolding clone_entries
  clone_dir phy_addr vm_page_dir src s = do
    (tables, addresses, s') ←
        clone_entries vm_page_dir.page_table src.page_table src.page_table_phy s
    some (
      record {
        page_table = tables;
        page_table_phy = addresses;
        page_dir_phy = (phy_addr + 0x1000) % 2 ^ 32;
      },
      s',
    )

-- The inner loop of `free_all_page`, with the rounds left.
unfoldable pub free_pages : ℕ → ℕ → ℕ → Vm → Option Vm
unfolding at_slot
free_pages zero t j s = some s
free_pages (suc rounds) t j s = do
  s' ← at_slot free_frame (record { table = t; index = j }) s
  free_pages rounds t (j + 1) s'

-- `free_all_page`: an entry that is NULL is read through all the same.
unfoldable pub free_tables : List (Option ℕ) → Vm → Option Vm
unfolding free_pages
free_tables [] s = some s
free_tables (none ∷ entries) s = none
free_tables (some t ∷ entries) s = do s' ← free_pages 1024 t 0 s; free_tables entries s'

unfoldable pub free_all_page : PageDir → Vm → Option Vm
unfolding free_tables
free_all_page dir s = free_tables dir.page_table s
