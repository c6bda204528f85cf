-- ===== src/Paging/Entries.antt =====
-- What `clone_dir` makes of the entries of a directory.
use os_implement.Prelude.{
  ℕ, zero, suc, ◌+◌, ◌≤◌, ◌<◌, ◌≡◌, refl, ap, ◌∙◌, bit_or, true, false, Option, none, some, List,
  [], ◌∷◌, if◌then◌else◌, arith, length, get_elem?, get_or, eq_of_some, lt_of_get_elem?,
}
use os_implement.Frames.{Page}
use os_implement.Paging.{Vm, is_kernel_table}
use os_implement.Paging.Pages.{PagesCloned, PagesCloned-later, PagesCloned-earlier}
use os_implement.Paging.Entry.{framed}
use os_implement.Paging.Table.{Extended}

-- How many frames the tables have that are not the kernel's.
abbrev pub private_frames : List (List Page) → List (Option ℕ) → List (Option ℕ) → ℕ
private_frames tables [] srcs = 0
private_frames tables (k ∷ kernel) [] = 0
private_frames tables (k ∷ kernel) (none ∷ srcs) = private_frames tables kernel srcs
private_frames tables (k ∷ kernel) (some t ∷ srcs) =
    (if is_kernel_table k t then 0 else framed (get_or tables t []))
    + private_frames tables kernel srcs

-- The tables at the start are among those of s, unchanged.
pub record Begins (tables : List (List Page)) (s : Vm) : Type 0 where
  pub longer : length tables ≤ length s.tables
  pub old : (j : ℕ) → j < length tables → get_elem? s.tables j ≡ get_elem? tables j

pub Begins-Extended :
    (tables : List (List Page)) (n : ℕ) (s t : Vm)
    → Begins tables s
    → Extended n s t
    → Begins tables t
Begins-Extended tables n s t b x = record {
  longer = omega (arith, b.longer, x.longer);
  old = λ j h. x.old j (omega (arith, b.longer)) ∙ b.old j h;
}

module _ (phy : ℕ → ℕ) where
  -- What an entry of the directory becomes, with its physical address: one that the kernel has too
  -- is shared, any other gets a new table, with a clone of each of its pages.
  pub record EntryCloned (tables : List (List Page)) (k src : Option ℕ) (p : ℕ) (out : Option ℕ)
      (out_p : ℕ) (s s' : Vm) : Type 0 where
    pub absent : src ≡ none → (out ≡ none) × (out_p ≡ 0)
    pub shared : (t : ℕ) → src ≡ some t → is_kernel_table k t ≡ true → (out ≡ some t) × (out_p ≡ p)
    pub own :
        (t : ℕ)
        → src ≡ some t
        → is_kernel_table k t ≡ false
        → (t' : ℕ) × (ps qs : List Page) × (out ≡ some t')
          × (out_p ≡ bit_or (phy t') 0x7)
          × (length tables ≤ t')
          × (get_elem? tables t ≡ some ps)
          × (get_elem? s'.tables t' ≡ some qs)
          × PagesCloned ps qs s s'

  EntryCloned-later :
      (tables : List (List Page)) (k src : Option ℕ) (p : ℕ) (out : Option ℕ) (out_p n : ℕ)
      (s t u : Vm)
      → Extended n t u
      → EntryCloned tables k src p out out_p s t
      → EntryCloned tables k src p out out_p s u
  EntryCloned-later tables k src p out out_p n s t u x c = record {
    absent = c.absent;
    shared = c.shared;
    own = λ a e f.
        let (t', ps, qs, e1, e2, h, e3, e4, r) = c.own a e f in
        (
          t',
          ps,
          qs,
          e1,
          e2,
          h,
          e3,
          x.old t' (lt_of_get_elem? t.tables t' e4) ∙ e4,
          PagesCloned-later ps qs s t u x.kept r,
        );
  }

  EntryCloned-earlier :
      (tables : List (List Page)) (k src : Option ℕ) (p : ℕ) (out : Option ℕ) (out_p n : ℕ)
      (s t u : Vm)
      → Extended n s t
      → EntryCloned tables k src p out out_p t u
      → EntryCloned tables k src p out out_p s u
  EntryCloned-earlier tables k src p out out_p n s t u x c = record {
    absent = c.absent;
    shared = c.shared;
    own = λ a e f.
        let (t', ps, qs, e1, e2, h, e3, e4, r) = c.own a e f in
        (t', ps, qs, e1, e2, h, e3, e4, PagesCloned-earlier ps qs s t u x.kept r);
  }

  -- The entries of a directory, place by place.
  pub record EntriesCloned (tables : List (List Page)) (kernel srcs : List (Option ℕ)) (ps : List ℕ)
      (outs : List (Option ℕ)) (out_ps : List ℕ) (s s' : Vm) : Type 0 where
    pub size : length outs ≡ length srcs
    pub size_phy : length out_ps ≡ length srcs
    pub each :
        (i : ℕ) (k src : Option ℕ) (p : ℕ)
        → get_elem? kernel i ≡ some k
        → get_elem? srcs i ≡ some src
        → get_elem? ps i ≡ some p
        → (out : Option ℕ) × (out_p : ℕ) × (get_elem? outs i ≡ some out)
          × (get_elem? out_ps i ≡ some out_p)
          × EntryCloned tables k src p out out_p s s'

  pub EntriesCloned-cons :
      (tables : List (List Page)) (k src : Option ℕ) (p : ℕ) (out : Option ℕ) (out_p : ℕ)
      (kernel srcs : List (Option ℕ)) (ps : List ℕ) (outs : List (Option ℕ)) (out_ps : List ℕ)
      (n m : ℕ) (s t u : Vm)
      → EntryCloned tables k src p out out_p s t
      → Extended n s t
      → Extended m t u
      → EntriesCloned tables kernel srcs ps outs out_ps t u
      → EntriesCloned tables (k ∷ kernel) (src ∷ srcs) (p ∷ ps) (out ∷ outs) (out_p ∷ out_ps) s u
  EntriesCloned-cons tables k src p out out_p kernel srcs ps outs out_ps n m s t u c x y r =
      record {
        size = ap suc r.size;
        size_phy = ap suc r.size_phy;
        each = λ i k' src' p' a b c. each i k' src' p' a b c;
      }
    where
      each :
          (i : ℕ) (k' src' : Option ℕ) (p' : ℕ)
          → get_elem? (k ∷ kernel) i ≡ some k'
          → get_elem? (src ∷ srcs) i ≡ some src'
          → get_elem? (p ∷ ps) i ≡ some p'
          → (o : Option ℕ) × (q : ℕ) × (get_elem? (out ∷ outs) i ≡ some o)
            × (get_elem? (out_p ∷ out_ps) i ≡ some q)
            × EntryCloned tables k' src' p' o q s u
      each zero k' src' p' a b d =
          let a' : k ≡ k' = eq_of_some a in
          let b' : src ≡ src' = eq_of_some b in
          let d' : p ≡ p' = eq_of_some d in
          rw (← a', ← b', ← d')
            (out, out_p, refl, refl, EntryCloned-later tables k src p out out_p m s t u y c)
      each (suc i) k' src' p' a b d =
          let (o, q, e, f, g) = r.each i k' src' p' a b d in
          (o, q, e, f, EntryCloned-earlier tables k' src' p' o q n s t u x g)
