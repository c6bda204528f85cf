-- ===== src/Paging/Release.antt =====
-- `free_all_page` on a directory with an entry that is NULL.
use os_implement.Prelude.{
  ℕ, zero, suc, ◌≡◌, refl, Option, none, some, List, [], ◌∷◌, get_elem?, Option-cases, inl, inr,
}
use os_implement.Paging.{PageDir, Vm, free_pages, free_tables, free_all_page}

free_tables_missing :
    (i : ℕ) (entries : List (Option ℕ)) (s : Vm)
    → get_elem? entries i ≡ some none
    → free_tables entries s ≡ none
unfolding free_tables
free_tables_missing i [] s h = cc
free_tables_missing zero (none ∷ entries) s h = refl
free_tables_missing zero (some t ∷ entries) s h = cc
free_tables_missing (suc i) (none ∷ entries) s h = refl
free_tables_missing (suc i) (some t ∷ entries) s h = elim (Option-cases (free_pages 1024 t 0 s)) [
  | inl e ↦ rw e
  | inr (s', e) ↦ rw e (free_tables_missing i entries s' h)
]

-- `free_all_page` reads through an entry that is NULL: on a directory that lacks a table it faults.
pub free_all_page_missing :
    (dir : PageDir) (s : Vm) (i : ℕ)
    → get_elem? dir.page_table i ≡ some none
    → free_all_page dir s ≡ none
unfolding free_all_page
free_all_page_missing dir s i h = free_tables_missing i dir.page_table s h
