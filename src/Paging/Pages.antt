-- ===== src/Paging/Pages.antt =====
-- `clone_table` entry by entry.
use os_implement.Prelude.{
  ℕ, zero, suc, ◌+◌, ◌≤◌, ◌≡◌, ◌≢◌, refl, sym, ap, ◌∙◌, inl, inr, true, false, some, List, [], ◌∷◌,
  ◌++◌, arith, Bool-cases, length, get_elem?, eq_of_some,
}
use mathlib.Core.Path.{subst}
use mathlib.Core.List.{append-nil, append_assoc}
use os_implement.Frames.{Page}
use os_implement.Frames.Bitmap.{used}
use os_implement.Paging.{Vm, clone_page, clone_pages}
use os_implement.Paging.Entry.{IsMemory, left, framed, Cloned, copied, Grown, clone_page-Cloned}

Grown-trans : (n m : ℕ) (s t u : Vm) → Grown n s t → Grown m t u → Grown (n + m) s u
Grown-trans n m s t u g h = record {
  memory = h.memory;
  tables = h.tables ∙ g.tables;
  left_over = omega (arith, g.left_over, h.left_over);
  kept = λ f p. h.kept f (g.kept f p);
}

-- Every used frame stays used.
abbrev pub Keeps : Vm → Vm → Type 0
Keeps s t = (f : ℕ) → used s.phys.frames f ≡ true → used t.phys.frames f ≡ true

-- A clone made in a step of a longer run.
Cloned-later : (p q : Page) (s t u : Vm) → Keeps t u → Cloned p q s t → Cloned p q s u
Cloned-later p q s t u keeps c = record {
  absent = c.absent;
  copied = c.copied;
  fresh = c.fresh;
  taken = λ h. keeps q.frame (c.taken h);
}

Cloned-earlier : (p q : Page) (s t u : Vm) → Keeps s t → Cloned p q t u → Cloned p q s u
Cloned-earlier p q s t u keeps c = record {
  absent = c.absent;
  copied = c.copied;
  fresh = λ h. unused (c.fresh h);
  taken = c.taken;
}
  where
    unused : used t.phys.frames q.frame ≡ false → used s.phys.frames q.frame ≡ false
    unused f = elim (Bool-cases (used s.phys.frames q.frame)) [
      | inl e ↦ cc (f, keeps q.frame e)
      | inr e ↦ e
    ]

-- The entries of a new table: each stands at the place of the entry that it clones, and no two hold
-- the same frame.
pub record PagesCloned (ps qs : List Page) (s s' : Vm) : Type 0 where
  pub size : length qs ≡ length ps
  pub each :
      (i : ℕ) (q : Page)
      → get_elem? qs i ≡ some q
      → (p : Page) × (get_elem? ps i ≡ some p) × Cloned p q s s'
  pub apart :
      (i j : ℕ) (p q : Page)
      → get_elem? qs i ≡ some p
      → get_elem? qs j ≡ some q
      → i ≢ j
      → p.frame ≢ 0
      → p.frame ≢ q.frame

pub PagesCloned-later :
    (ps qs : List Page) (s t u : Vm) → Keeps t u → PagesCloned ps qs s t → PagesCloned ps qs s u
PagesCloned-later ps qs s t u keeps c = record {
  size = c.size;
  each = λ i q e. let (p, e', d) = c.each i q e in (p, e', Cloned-later p q s t u keeps d);
  apart = c.apart;
}

pub PagesCloned-earlier :
    (ps qs : List Page) (s t u : Vm) → Keeps s t → PagesCloned ps qs t u → PagesCloned ps qs s u
PagesCloned-earlier ps qs s t u keeps c = record {
  size = c.size;
  each = λ i q e. let (p, e', d) = c.each i q e in (p, e', Cloned-earlier p q s t u keeps d);
  apart = c.apart;
}

PagesCloned-cons :
    (p q : Page) (ps qs : List Page) (n m : ℕ) (s t u : Vm)
    → Cloned p q s t
    → Grown n s t
    → Grown m t u
    → PagesCloned ps qs t u
    → PagesCloned (p ∷ ps) (q ∷ qs) s u
PagesCloned-cons p q ps qs n m s t u c g h r = record {
  size = ap suc r.size;
  each = λ i x e. each i x e;
  apart = λ i j x y a b. apart i j x y a b;
}
  where
    each :
        (i : ℕ) (x : Page)
        → get_elem? (q ∷ qs) i ≡ some x
        → (y : Page) × (get_elem? (p ∷ ps) i ≡ some y) × Cloned y x s u
    each zero x e =
        let e' : q ≡ x = eq_of_some e in rw (← e') (p, refl, Cloned-later p q s t u h.kept c)
    each (suc i) x e = let (y, e', d) = r.each i x e in (y, e', Cloned-earlier y x s t u g.kept d)

    other : (j : ℕ) (y : Page) → get_elem? qs j ≡ some y → q.frame ≢ 0 → q.frame ≢ y.frame
    other j y b ne e =
        let (z, _, d) = r.each j y b in
        let free = d.fresh (λ z. ne (e ∙ z)) in cc (c.taken ne, free, ap (used t.phys.frames) e)

    apart :
        (i j : ℕ) (x y : Page)
        → get_elem? (q ∷ qs) i ≡ some x
        → get_elem? (q ∷ qs) j ≡ some y
        → i ≢ j
        → x.frame ≢ 0
        → x.frame ≢ y.frame
    apart zero zero x y a b d = absurd (d refl)
    apart zero (suc j) x y a b d = let e : q ≡ x = eq_of_some a in rw (← e) (other j y b)
    apart (suc i) zero x y a b d =
        let e : q ≡ y = eq_of_some b in rw (← e) (λ ne f. other i x a (λ z. ne (f ∙ z)) (sym f))
    apart (suc i) (suc j) x y a b d = r.apart i j x y a b (λ e. d (ap suc e))

clone_pages_step :
    (p q : Page) (ps qs : List Page) (s t u : Vm)
    → clone_page p s ≡ some (q, t)
    → clone_pages ps t ≡ some (qs, u)
    → clone_pages (p ∷ ps) s ≡ some (q ∷ qs, u)
unfolding clone_pages
clone_pages_step p q ps qs s t u e f = ground (arith, e, f)

-- With as many free frames as the table has frames, its loop succeeds.
pub clone_pages-PagesCloned :
    (ps : List Page) (s : Vm)
    → IsMemory s
    → framed ps ≤ left s
    → (qs : List Page) × (s' : Vm) × (clone_pages ps s ≡ some (qs, s'))
      × PagesCloned ps qs s s'
      × Grown (framed ps) s s'
      × (s'.copies ≡ s.copies ++ copied ps qs)
clone_pages-PagesCloned [] s ok room = (
  [],
  s,
  unfold clone_pages in refl,
  record { size = refl; each = λ i q e. cc; apart = λ i j p q e. cc },
  record { memory = ok; tables = refl; left_over = omega arith; kept = λ f h. h },
  sym (append-nil s.copies),
)
clone_pages-PagesCloned (p ∷ ps) s ok room =
    let (q, t, e, c, g, k) = clone_page-Cloned p s ok (omega arith) in
    let (qs, u, f, r, h, l) = clone_pages-PagesCloned ps t g.memory (omega (arith, g.left_over)) in
    let total : framed (p ∷ []) + framed ps ≡ framed (p ∷ ps) = omega arith in
    (
      q ∷ qs,
      u,
      clone_pages_step p q ps qs s t u e f,
      PagesCloned-cons p q ps qs (framed (p ∷ [])) (framed ps) s t u c g h r,
      subst (λ n. Grown n s u) total (Grown-trans (framed (p ∷ [])) (framed ps) s t u g h),
      l
          ∙ ap (λ c. c ++ copied ps qs) k
          ∙ append_assoc s.copies (copied (p ∷ []) (q ∷ [])) (copied ps qs)
          ∙ ap (λ c. s.copies ++ c) (ap (λ c. c ++ copied ps qs) (append-nil _)),
    )
