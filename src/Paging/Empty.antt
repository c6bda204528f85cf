-- ===== src/Paging/Empty.antt =====
-- A directory of zeros, as `memset` leaves it.
use os_implement.Prelude.{
  ℕ, ◌/◌, ◌≡◌, inl, inr, sym, ap, ◌∙◌, Option, none, some, [], Option-cases, length, get_elem?,
  replicate, length-replicate, eq_of_get_elem?-replicate,
}
use os_implement.Paging.{PageDir, Vm}
use os_implement.Paging.Lookup.{IsTables}
use os_implement.Paging.Mapping.{VacantAt, page_at_outside, page_at_without}

pub empty_dir-IsTables :
    (k : ℕ) (dir : PageDir) (s : Vm)
    → k ≡ 1024
    → dir.page_table ≡ replicate k none
    → dir.page_table_phy ≡ replicate k 0
    → s.tables ≡ []
    → IsTables dir s
empty_dir-IsTables k dir s size e f none_yet = record {
  size = ap length e ∙ length-replicate k none ∙ size;
  size_phy = ap length f ∙ length-replicate k 0 ∙ size;
  inside = λ i t h. cc (nothing i (some t) h);
  apart = λ i j t h g. cc (nothing i (some t) h);
  full = λ t ps h.
      let h' : get_elem? [] t ≡ some ps = ap (λ l. get_elem? l t) (sym none_yet) ∙ h in cc h';
}
  where
    nothing : (i : ℕ) (x : Option ℕ) → get_elem? dir.page_table i ≡ some x → x ≡ none
    nothing i x h = eq_of_get_elem?-replicate k i none (ap (λ l. get_elem? l i) (sym e) ∙ h)

pub empty_dir-VacantAt :
    (k : ℕ) (dir : PageDir) (s : Vm) (p : ℕ) → dir.page_table ≡ replicate k none → VacantAt p dir s
empty_dir-VacantAt k dir s p e = elim (Option-cases (get_elem? dir.page_table (p / 1024))) [
  | inl h ↦ inl (page_at_outside dir s p h)
  | inr (x, h) ↦
      let none_there : x ≡ none =
        eq_of_get_elem?-replicate k (p / 1024) none
          (ap (λ l. get_elem? l (p / 1024)) (sym e) ∙ h) in
      inl (page_at_without dir s p (h ∙ ap some none_there))
]
