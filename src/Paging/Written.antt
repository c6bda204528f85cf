-- ===== src/Paging/Written.antt =====
-- Writes to the entries of pages.
use os_implement.Prelude.{
  ℕ, ◌/◌, ◌%◌, ◌<◌, ◌≡◌, ◌≢◌, inl, inr, refl, sym, ap, ◌∙◌, Option, none, some, List, ◌==◌, arith,
  Bool-cases, Option-cases, ==_iff, length, get_elem?, set, eq_of_some, get_elem?-set_self,
  get_elem?-set_ne, length-set,
}
use os_implement.Frames.{Page, Phys}
use os_implement.Paging.{PageDir, Vm, at_slot}
use os_implement.Paging.Lookup.{IsTables}
use os_implement.Paging.Mapping.{page_at, page_at_table, page_at_in, page_at_without}

-- A write to the entry of page n.
module _ (dir : PageDir) (s : Vm) (ok : IsTables dir s) (n t : ℕ) (pages : List Page) (x' : Page)
    (phys' : Phys) (here : get_elem? dir.page_table (n / 1024) ≡ some (some t))
    (table : get_elem? s.tables t ≡ some pages) where
  abbrev written : Vm
  written = record s { tables = set s.tables t (set pages (n % 1024) x'); phys = phys' }

  inside_table : n % 1024 < length pages
  inside_table = omega (arith, ok.full t pages table)

  at_slot-written :
      (f : Page → Phys → Option (Page × Phys)) (x : Page)
      → get_elem? pages (n % 1024) ≡ some x
      → f x s.phys ≡ some (x', phys')
      → at_slot f (record { table = t; index = n % 1024 }) s ≡ some written
  unfolding at_slot
  at_slot-written f x e g = rw (table, e, g)

  page_at-written_here : page_at n dir written ≡ some x'
  page_at-written_here =
      page_at_in dir written n t (set pages (n % 1024) x') here
        (get_elem?-set_self s.tables t (set pages (n % 1024) x') (ok.inside _ t here))
      ∙ get_elem?-set_self pages (n % 1024) x' inside_table

  page_at-written_there : (q : ℕ) → q ≢ n → page_at q dir written ≡ page_at q dir s
  unfolding page_at
  page_at-written_there q other = elim (Option-cases (get_elem? dir.page_table (q / 1024))) [
    | inl e ↦ rw e
    | inr (none, e) ↦ page_at_without dir written q e ∙ sym (page_at_without dir s q e)
    | inr (some u, e) ↦ elim (Bool-cases (u == t)) [
      | inl same ↦
          let same' : t ≡ u = sym ((==_iff u t).0 same) in
          let e' : get_elem? dir.page_table (q / 1024) ≡ some (some t) =
            e ∙ ap (λ k. some (some k)) (sym same') in
          let entry = ok.apart (q / 1024) (n / 1024) t e' here in
          page_at_in dir written q t (set pages (n % 1024) x') e'
            (get_elem?-set_self s.tables t (set pages (n % 1024) x') (ok.inside _ t here))
          ∙ get_elem?-set_ne pages (n % 1024) (q % 1024) x' (λ p. other (omega (arith, entry, p)))
          ∙ sym (page_at_in dir s q t pages e' table)
      | inr d ↦
          let tables : get_elem? (set s.tables t (set pages (n % 1024) x')) u
              ≡ get_elem? s.tables u =
            get_elem?-set_ne s.tables t u (set pages (n % 1024) x')
              (λ p. cc (d, (==_iff u t).1 (sym p))) in
          rw (e, tables)
    ]
  ]

  IsTables-written : IsTables dir written
  IsTables-written = record {
    size = ok.size;
    size_phy = ok.size_phy;
    inside =
        λ i u e. omega (arith, ok.inside i u e, length-set s.tables t (set pages (n % 1024) x'));
    apart = ok.apart;
    full = λ u ps e. elim (Bool-cases (u == t)) [
      | inl same ↦
          let same' : t ≡ u = sym ((==_iff u t).0 same) in
          let is : get_elem? written.tables t ≡ some (set pages (n % 1024) x') =
            get_elem?-set_self s.tables t (set pages (n % 1024) x') (ok.inside _ t here) in
          let whole : set pages (n % 1024) x' ≡ ps =
            eq_of_some (sym is ∙ ap (get_elem? written.tables) same' ∙ e) in
          ap length (sym whole) ∙ length-set pages (n % 1024) x' ∙ ok.full t pages table
      | inr d ↦ ok.full u ps (
          sym (
            get_elem?-set_ne s.tables t u (set pages (n % 1024) x')
              (λ p. cc (d, (==_iff u t).1 (sym p))))
          ∙ e)
    ];
  }

-- A change of the entry of page n, which has a table: the entry is changed, and no other.
pub at_slot_changed :
    (dir : PageDir) (s : Vm) (n t : ℕ) (f : Page → Phys → Option (Page × Phys)) (x x' : Page)
    (phys' : Phys)
    → IsTables dir s
    → get_elem? dir.page_table (n / 1024) ≡ some (some t)
    → page_at n dir s ≡ some x
    → f x s.phys ≡ some (x', phys')
    → (s' : Vm) × (at_slot f (record { table = t; index = n % 1024 }) s ≡ some s')
      × (s'.phys ≡ phys')
      × IsTables dir s'
      × (page_at n dir s' ≡ some x')
      × ((q : ℕ) → q ≢ n → page_at q dir s' ≡ page_at q dir s)
at_slot_changed dir s n t f x x' phys' ok here e g =
    let (u, pages, e1, e2, e3) = page_at_table dir s n x e in
    let same : u ≡ t = eq_of_some (eq_of_some (sym e1 ∙ here)) in
    let table : get_elem? s.tables t ≡ some pages = ap (get_elem? s.tables) (sym same) ∙ e2 in
    (
      written dir s ok n t pages x' phys' here table,
      at_slot-written dir s ok n t pages x' phys' here table f x e3 g,
      refl,
      IsTables-written dir s ok n t pages x' phys' here table,
      page_at-written_here dir s ok n t pages x' phys' here table,
      page_at-written_there dir s ok n t pages x' phys' here table,
    )
