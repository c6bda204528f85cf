-- ===== src/Paging/Mapping.antt =====
-- The page entry of a page number, found through a directory, and what `get_page` and writes to entries
-- do to it.
use os_implement.Prelude.{
  ℕ, ◌*◌, ◌/◌, ◌%◌, ◌^◌, ◌<◌, ◌≡◌, ◌≢◌, ◌⊎◌, inl, inr, refl, sym, ap, ◌∙◌, true, Option, none, some,
  List, [], ◌∷◌, ◌==◌, arith, Bool-cases, Option-cases, ==_iff, length, get_elem?, replicate,
  get_elem?_lt, lt_of_get_elem?, get_elem?-set_self, get_elem?-set_ne, get_elem?-replicate, ◌>>=◌,
  >>=-eq_some, get_elem?-append_left, get_elem?-append_end,
}
use mathlib.Core.Path.{subst}
use os_implement.Frames.{Page}
use os_implement.Paging.{PageDir, Vm, zero_page, get_page}
use os_implement.Paging.Lookup.{
  IsTables, dir_with, vm_with, get_page_found, get_page_made, IsTables-made,
}

-- The entry of a page, `none` where the directory has no table for it.
unfoldable pub page_at : ℕ → PageDir → Vm → Option Page
page_at p dir s = do
  entry ← get_elem? dir.page_table (p / 1024)
  t ← entry
  pages ← get_elem? s.tables t
  get_elem? pages (p % 1024)

-- Nothing is mapped there.
abbrev pub VacantAt : ℕ → PageDir → Vm → Type 0
VacantAt p dir s = (page_at p dir s ≡ none) ⊎ (page_at p dir s ≡ some zero_page)

module _ (dir : PageDir) (s : Vm) where
  pub page_at_in :
      (p t : ℕ) (pages : List Page)
      → get_elem? dir.page_table (p / 1024) ≡ some (some t)
      → get_elem? s.tables t ≡ some pages
      → page_at p dir s ≡ get_elem? pages (p % 1024)
  unfolding page_at
  page_at_in p t pages e f = rw (e, f)

  pub page_at_outside :
      (p : ℕ) → get_elem? dir.page_table (p / 1024) ≡ none → page_at p dir s ≡ none
  unfolding page_at
  page_at_outside p e = rw e

  pub page_at_without :
      (p : ℕ) → get_elem? dir.page_table (p / 1024) ≡ some none → page_at p dir s ≡ none
  unfolding page_at
  page_at_without p e = rw e

  -- An entry that a page has lies in a table of the directory.
  pub page_at_table :
      (p : ℕ) (x : Page)
      → page_at p dir s ≡ some x
      → (t : ℕ) × (pages : List Page) × (get_elem? dir.page_table (p / 1024) ≡ some (some t))
        × (get_elem? s.tables t ≡ some pages)
        × (get_elem? pages (p % 1024) ≡ some x)
  unfolding page_at
  page_at_table p x h =
      let (entry, e, h1) = >>=-eq_some (get_elem? dir.page_table (p / 1024)) _ h in
      let (t, f, h2) = >>=-eq_some entry _ h1 in
      let (pages, g, h3) = >>=-eq_some (get_elem? s.tables t) _ h2 in
      (t, pages, e ∙ ap some f, g, h3)

-- What a change of the entries keeps: entries that there are, and those where nothing is mapped.
pub record Keeps (dir : PageDir) (s : Vm) (dir' : PageDir) (s' : Vm) (q : ℕ) : Type 0 where
  pub mapped : (x : Page) → page_at q dir s ≡ some x → page_at q dir' s' ≡ some x
  pub vacant : VacantAt q dir s → VacantAt q dir' s'

Keeps-same :
    (dir dir' : PageDir) (s s' : Vm) (q : ℕ)
    → page_at q dir' s' ≡ page_at q dir s
    → Keeps dir s dir' s' q
Keeps-same dir dir' s s' q e = record {
  mapped = λ x h. e ∙ h;
  vacant = λ v. elim v [ inl h ↦ inl (e ∙ h) | inr h ↦ inr (e ∙ h) ];
}

module _ (phy : ℕ → ℕ) (addr : ℕ) (dir : PageDir) (s : Vm) (ok : IsTables dir s)
    (absent : get_elem? dir.page_table (addr / 0x1000 / 1024) ≡ some none) where
  -- A table is made.
  page_at-made_here :
      (q : ℕ)
      → q / 1024 ≡ addr / 0x1000 / 1024
      → page_at q (dir_with phy addr dir s) (vm_with s) ≡ some zero_page
  page_at-made_here q same =
      page_at_in (dir_with phy addr dir s) (vm_with s) q (length s.tables)
        (replicate 1024 zero_page)
        (ap (get_elem? (dir_with phy addr dir s).page_table) same
          ∙ get_elem?-set_self dir.page_table (addr / 0x1000 / 1024) (some (length s.tables))
              (lt_of_get_elem? dir.page_table _ absent))
        (get_elem?-append_end s.tables (replicate 1024 zero_page) [])
      ∙ get_elem?-replicate 1024 (q % 1024) zero_page (omega arith)

  page_at-made_there :
      (q : ℕ)
      → q / 1024 ≢ addr / 0x1000 / 1024
      → page_at q (dir_with phy addr dir s) (vm_with s) ≡ page_at q dir s
  unfolding page_at
  page_at-made_there q other =
      let e =
        get_elem?-set_ne dir.page_table (addr / 0x1000 / 1024) (q / 1024) (some (length s.tables))
          (λ p. other (sym p)) in
      elim (Option-cases (get_elem? dir.page_table (q / 1024))) [
        | inl n ↦ rw (e, n)
        | inr (none, n) ↦ rw (e, n)
        | inr (some t, n) ↦ rw (
          e,
          n,
          get_elem?-append_left s.tables (replicate 1024 zero_page ∷ []) t (ok.inside _ t n),
        )
      ]

  made-Keeps : (q : ℕ) → Keeps dir s (dir_with phy addr dir s) (vm_with s) q
  made-Keeps q = elim (Bool-cases (q / 1024 == addr / 0x1000 / 1024)) [
    | inr d ↦
        Keeps-same dir (dir_with phy addr dir s) s (vm_with s) q
          (page_at-made_there q (λ e. cc (d, (==_iff _ _).1 e)))
    | inl t ↦
        let same = (==_iff (q / 1024) (addr / 0x1000 / 1024)).0 t in
        let gone = page_at_without dir s q (ap (get_elem? dir.page_table) same ∙ absent) in
        record { mapped = λ x h. cc (h, gone); vacant = λ v. inr (page_at-made_here q same) }
  ]

-- `get_page` with `make` at an address of page n: its entry is in a table afterwards, where there was
-- nothing it is an entry of zeros, and what is mapped anywhere stays.
abbrev pub Made : (ℕ → ℕ) → ℕ → ℕ → PageDir → Vm → Type 0
Made phy addr n dir s =
    (t : ℕ) × (dir' : PageDir) × (s' : Vm) × (get_page phy addr true dir s
      ≡ some (some (record { table = t; index = n % 1024 }), dir', s'))
    × IsTables dir' s'
    × (s'.phys ≡ s.phys)
    × (get_elem? dir'.page_table (n / 1024) ≡ some (some t))
    × (VacantAt n dir s → page_at n dir' s' ≡ some zero_page)
    × ((q : ℕ) → Keeps dir s dir' s' q)

-- A page with a table has an entry.
page_at_full :
    (dir : PageDir) (s : Vm) (n t : ℕ)
    → IsTables dir s
    → get_elem? dir.page_table (n / 1024) ≡ some (some t)
    → (x : Page) × (page_at n dir s ≡ some x)
page_at_full dir s n t ok e =
    let (pages, f) = get_elem?_lt s.tables t (ok.inside _ t e) in
    let (x, g) = get_elem?_lt pages (n % 1024) (omega (arith, ok.full t pages f)) in
    (x, page_at_in dir s n t pages e f ∙ g)

get_page-Made :
    (phy : ℕ → ℕ) (addr : ℕ) (dir : PageDir) (s : Vm)
    → IsTables dir s
    → addr < 2 ^ 32
    → Made phy addr (addr / 0x1000) dir s
get_page-Made phy addr dir s ok small =
    let n = addr / 0x1000 in
    let (entry, e) = get_elem?_lt dir.page_table (n / 1024) (omega (arith, ok.size)) in
    elim (Option-cases entry) [
      | inr (t, f) ↦
          let here = e ∙ ap some f in
          let (x, g) = page_at_full dir s n t ok here in
          (
            t,
            dir,
            s,
            get_page_found phy addr dir s true t here,
            ok,
            refl,
            here,
            λ v. elim v [ inl h ↦ cc (h, g) | inr h ↦ h ],
            λ q. Keeps-same dir dir s s q refl,
          )
      | inl f ↦
          let absent = e ∙ ap some f in
          (
            length s.tables,
            dir_with phy addr dir s,
            vm_with s,
            get_page_made phy addr dir s absent,
            IsTables-made phy addr dir s ok,
            refl,
            get_elem?-set_self dir.page_table (n / 1024) (some (length s.tables))
                (omega (arith, ok.size)),
            λ v. page_at-made_here phy addr dir s ok absent n refl,
            made-Keeps phy addr dir s ok absent,
          )
    ]

pub get_page_mapping :
    (phy : ℕ → ℕ) (n : ℕ) (dir : PageDir) (s : Vm)
    → IsTables dir s
    → n < 2 ^ 20
    → Made phy (n * 0x1000) n dir s
get_page_mapping phy n dir s ok small =
    let e : n * 0x1000 / 0x1000 ≡ n = omega arith in
    subst (λ k. Made phy (n * 0x1000) k dir s) e
      (get_page-Made phy (n * 0x1000) dir s ok (omega arith))
