-- ===== src/Paging/Table.antt =====
-- `clone_table`: a new table beside the old ones.
use os_implement.Prelude.{
  ℕ, zero, suc, ◌+◌, ◌≤◌, ◌<◌, ◌≡◌, refl, sym, ap, ◌∙◌, some, List, [], ◌∷◌, ◌++◌, arith, length,
  get_elem?, length-append,
}
use os_implement.Frames.{Page}
use os_implement.Paging.{Vm, clone_pages, clone_table}
use os_implement.Paging.Pages.{Keeps, PagesCloned, PagesCloned-later, clone_pages-PagesCloned}
use os_implement.Paging.Entry.{IsMemory, left, framed}

-- A memory with n frames less, whose old tables are as they were.
pub record Extended (n : ℕ) (s s' : Vm) : Type 0 where
  pub memory : IsMemory s'
  pub left_over : left s' + n ≡ left s
  pub kept : Keeps s s'
  pub longer : length s.tables ≤ length s'.tables
  pub old : (j : ℕ) → j < length s.tables → get_elem? s'.tables j ≡ get_elem? s.tables j

pub Extended-refl : (s : Vm) → IsMemory s → Extended 0 s s
Extended-refl s ok = record {
  memory = ok;
  left_over = omega arith;
  kept = λ f h. h;
  longer = omega arith;
  old = λ j h. refl;
}

pub Extended-trans : (n m : ℕ) (s t u : Vm) → Extended n s t → Extended m t u → Extended (n + m) s u
Extended-trans n m s t u g h = record {
  memory = h.memory;
  left_over = omega (arith, g.left_over, h.left_over);
  kept = λ f p. h.kept f (g.kept f p);
  longer = omega (arith, g.longer, h.longer);
  old = λ j p. h.old j (omega (arith, g.longer)) ∙ g.old j p;
}

get_elem?-append_last :
    {A : Type 0} (xs : List A) (y : A) → get_elem? (xs ++ y ∷ []) (length xs) ≡ some y
get_elem?-append_last [] y = refl
get_elem?-append_last (x ∷ xs) y = get_elem?-append_last xs y

get_elem?-append_old :
    {A : Type 0} (xs : List A) (y : A) (j : ℕ)
    → j < length xs
    → get_elem? (xs ++ y ∷ []) j ≡ get_elem? xs j
get_elem?-append_old [] y j h = elim h [ ]
get_elem?-append_old (x ∷ xs) y zero h = refl
get_elem?-append_old (x ∷ xs) y (suc j) h = get_elem?-append_old xs y j (omega arith)

clone_table_step :
    (t : ℕ) (ps qs : List Page) (s s' : Vm)
    → get_elem? s.tables t ≡ some ps
    → clone_pages ps s ≡ some (qs, s')
    → clone_table t s ≡ some (length s'.tables, record s' { tables = s'.tables ++ qs ∷ [] })
unfolding clone_table
clone_table_step t ps qs s s' e f = ground (arith, e, f)

-- One table cloned.
pub clone_table-PagesCloned :
    (t : ℕ) (ps : List Page) (s : Vm)
    → IsMemory s
    → get_elem? s.tables t ≡ some ps
    → framed ps ≤ left s
    → (qs : List Page) × (s' : Vm) × (clone_table t s ≡ some (length s.tables, s'))
      × (get_elem? s'.tables (length s.tables) ≡ some qs)
      × PagesCloned ps qs s s'
      × Extended (framed ps) s s'
clone_table-PagesCloned t ps s ok here room =
    let (qs, u, e, c, g, _) = clone_pages-PagesCloned ps s ok room in
    let n : length u.tables ≡ length s.tables = ap length g.tables in
    (
      qs,
      record u { tables = u.tables ++ qs ∷ [] },
      clone_table_step t ps qs s u here e
          ∙ ap (λ k. some (k, record u { tables = u.tables ++ qs ∷ [] })) n,
      ap (get_elem? (u.tables ++ qs ∷ [])) (sym n) ∙ get_elem?-append_last u.tables qs,
      PagesCloned-later ps qs s u (record u { tables = u.tables ++ qs ∷ [] }) (λ f h. h) c,
      record {
        memory = record { phys = g.memory.phys; zero_used = g.memory.zero_used };
        left_over = g.left_over;
        kept = g.kept;
        longer = omega (arith, length-append u.tables (qs ∷ []));
        old = λ j h.
            get_elem?-append_old u.tables qs j (omega arith) ∙ ap (λ l. get_elem? l j) g.tables;
      },
    )
