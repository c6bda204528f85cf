-- ===== src/Startup/Switch.antt =====
-- A clone of the directory of the kernel itself, and the memory for it from a new heap.
use os_implement.Prelude.{
  ℕ, zero, suc, ◌+◌, ◌*◌, ◌/◌, ◌%◌, ◌^◌, ◌<◌, ◌≡◌, refl, ap, ◌∙◌, false, Option, none, some, List,
  [], ◌∷◌, arith, ==_refl, length, get_elem?, bit_and,
}
use os_implement.Prelude.Mask.{bit_and-mask}
use os_implement.Frames.{Page}
use os_implement.Paging.{PageDir, Vm, clone_entries, clone_dir}
use os_implement.Paging.Lookup.{get_page_found}
use os_implement.Paging.Loop.{round_absent, round_shared}
use os_implement.Paging.Mapping.{page_at, page_at_table}
use os_implement.Heap.{Heap, add32}
use os_implement.Heap.Blocks.{alloc}
use os_implement.Malloc.{Kernel, physical, malloc, malloc_ap}

-- The loop of `clone_dir` over the entries of vm_page_dir itself.
pub clone_entries-same :
    (phy : ℕ → ℕ) (tables : List (Option ℕ)) (ps : List ℕ) (s : Vm)
    → length tables ≡ length ps
    → (ps' : List ℕ) × (clone_entries phy tables tables ps s ≡ some (tables, ps', s))
      × (length ps' ≡ length ps)
      × ((i t : ℕ) → get_elem? tables i ≡ some (some t) → get_elem? ps' i ≡ get_elem? ps i)
clone_entries-same phy [] [] s e = ([], unfold clone_entries in refl, refl, λ i t h. refl)
clone_entries-same phy [] (p ∷ ps) s e = absurd (omega arith)
clone_entries-same phy (k ∷ tables) [] s e = absurd (omega arith)
clone_entries-same phy (none ∷ tables) (p ∷ ps) s e =
    let (ps', f, size, same) = clone_entries-same phy tables ps s (omega arith) in
    (0 ∷ ps', round_absent phy none tables tables p ps tables ps' s s f, ap suc size, kept ps' same)
  where
    kept :
        (ps' : List ℕ)
        → ((i t : ℕ) → get_elem? tables i ≡ some (some t) → get_elem? ps' i ≡ get_elem? ps i)
        → (i t : ℕ) → get_elem? (none ∷ tables) i ≡ some (some t)
        → get_elem? (0 ∷ ps') i ≡ get_elem? (p ∷ ps) i
    kept ps' same zero t h = cc
    kept ps' same (suc i) t h = same i t h
clone_entries-same phy (some k ∷ tables) (p ∷ ps) s e =
    let (ps', f, size, same) = clone_entries-same phy tables ps s (omega arith) in
    (
      p ∷ ps',
      round_shared phy (some k) tables tables p ps tables ps' k s s (==_refl k) f,
      ap suc size,
      kept ps' same,
    )
  where
    kept :
        (ps' : List ℕ)
        → ((i t : ℕ) → get_elem? tables i ≡ some (some t) → get_elem? ps' i ≡ get_elem? ps i)
        → (i t : ℕ) → get_elem? (some k ∷ tables) i ≡ some (some t)
        → get_elem? (p ∷ ps') i ≡ get_elem? (p ∷ ps) i
    kept ps' same zero t h = refl
    kept ps' same (suc i) t h = same i t h

pub clone_dir-same :
    (phy : ℕ → ℕ) (addr : ℕ) (dir : PageDir) (s : Vm)
    → length dir.page_table ≡ length dir.page_table_phy
    → (dir' : PageDir) × (clone_dir phy addr dir dir s ≡ some (dir', s))
      × (dir'.page_table ≡ dir.page_table)
      × (length dir'.page_table_phy ≡ length dir.page_table_phy)
      × ((i t : ℕ)
          → get_elem? dir.page_table i ≡ some (some t)
          → get_elem? dir'.page_table_phy i ≡ get_elem? dir.page_table_phy i)
      × (dir'.page_dir_phy ≡ (addr + 0x1000) % 2 ^ 32)
unfolding clone_dir
clone_dir-same phy addr dir s e =
    let (ps', f, size, same) = clone_entries-same phy dir.page_table dir.page_table_phy s e in
    (
      record {
        page_table = dir.page_table;
        page_table_phy = ps';
        page_dir_phy = (addr + 0x1000) % 2 ^ 32;
      },
      rw f refl,
      refl,
      size,
      same,
      refl,
    )

-- The physical address of the start of a page that is mapped.
pub physical-mapped :
    (n : ℕ) (x : Page) (dir : PageDir) (h : Heap)
    → page_at n dir h.vm ≡ some x
    → x.frame * 0x1000 < 2 ^ 32
    → physical (n * 0x1000) dir h ≡ some (x.frame * 0x1000)
unfolding physical
physical-mapped n x dir h e small =
    let (t, pages, f, g, k) = page_at_table dir h.vm n x e in
    let page : n * 0x1000 / 0x1000 ≡ n = omega arith in
    let found =
      get_page_found h.table_phy (n * 0x1000) dir h.vm false t
        (ap (λ p. get_elem? dir.page_table (p / 1024)) page ∙ f) in
    let entry : get_elem? pages (n * 0x1000 / 0x1000 % 1024) ≡ some x =
      ap (λ p. get_elem? pages (p % 1024)) page ∙ k in
    let low : bit_and (n * 0x1000) 0xfff ≡ 0 = omega (arith, bit_and-mask 12 (n * 0x1000)) in
    let sum : add32 (x.frame * 0x1000) 0 ≡ x.frame * 0x1000 = omega arith in
    rw (found, g, entry, low, sum) refl

pub malloc_ap_heap :
    (fuel size addr phy : ℕ) (k : Kernel) (h h' : Heap)
    → k.kheap ≡ some h
    → alloc fuel size 1 h ≡ some (addr, h')
    → physical addr k.cur_vm_page_dir h' ≡ some phy
    → malloc_ap fuel size k ≡ some (addr, some phy, record k { kheap = some h' })
unfolding malloc_ap malloc
malloc_ap_heap fuel size addr phy k h h' e f g = rw (e, f, g) refl
