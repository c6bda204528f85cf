-- ===== src/Paging/Loop.antt =====
-- The loop of `clone_dir` over the entries of a directory.
use os_implement.Prelude.{
  ℕ, suc, ◌+◌, ◌≤◌, ◌<◌, ◌≡◌, refl, sym, ap, ◌∙◌, inl, inr, bit_or, true, false, Option, none, some,
  List, [], ◌∷◌, arith, Bool-cases, length, get_elem?, get_or, eq_of_some, get_elem?_lt,
  get_or_of_get_elem?,
}
use os_implement.Frames.{Page}
use os_implement.Paging.{Vm, clone_table, is_kernel_table, clone_entries}
use os_implement.Paging.Pages.{PagesCloned}
use os_implement.Paging.Entry.{IsMemory, left, framed}
use os_implement.Paging.Table.{Extended, Extended-refl, Extended-trans, clone_table-PagesCloned}
use os_implement.Paging.Entries.{
  private_frames, Begins, Begins-Extended, EntryCloned, EntriesCloned, EntriesCloned-cons,
}
use mathlib.Core.Path.{subst}

-- One round of the loop, for each of the three kinds of entry.
module _ (phy : ℕ → ℕ) (k : Option ℕ) (kernel srcs : List (Option ℕ)) (p : ℕ) (ps : List ℕ)
    (outs : List (Option ℕ)) (out_ps : List ℕ) where
  pub round_absent :
      (s u : Vm)
      → clone_entries phy kernel srcs ps s ≡ some (outs, out_ps, u)
      → clone_entries phy (k ∷ kernel) (none ∷ srcs) (p ∷ ps) s ≡ some (none ∷ outs, 0 ∷ out_ps, u)
  unfolding clone_entries
  round_absent s u e = ground (arith, e)

  pub round_shared :
      (t : ℕ) (s u : Vm)
      → is_kernel_table k t ≡ true
      → clone_entries phy kernel srcs ps s ≡ some (outs, out_ps, u)
      → clone_entries phy (k ∷ kernel) (some t ∷ srcs) (p ∷ ps) s
        ≡ some (some t ∷ outs, p ∷ out_ps, u)
  unfolding clone_entries
  round_shared t s u h e = rw h (ground (arith, e))

  round_own :
      (t t' : ℕ) (s v u : Vm)
      → is_kernel_table k t ≡ false
      → clone_table t s ≡ some (t', v)
      → clone_entries phy kernel srcs ps v ≡ some (outs, out_ps, u)
      → clone_entries phy (k ∷ kernel) (some t ∷ srcs) (p ∷ ps) s
        ≡ some (some t' ∷ outs, bit_or (phy t') 0x7 ∷ out_ps, u)
  unfolding clone_entries
  round_own t t' s v u h f e = rw (h, f) (ground (arith, e))

entry_absent :
    (phy : ℕ → ℕ) (tables : List (List Page)) (k : Option ℕ) (p : ℕ) (s : Vm)
    → EntryCloned phy tables k none p none 0 s s
entry_absent phy tables k p s = record {
  absent = λ h. (refl, refl);
  shared = λ t h e. cc;
  own = λ t h e. cc;
}

entry_shared :
    (phy : ℕ → ℕ) (tables : List (List Page)) (k : Option ℕ) (t p : ℕ) (s : Vm)
    → is_kernel_table k t ≡ true
    → EntryCloned phy tables k (some t) p (some t) p s s
entry_shared phy tables k t p s e = record {
  absent = λ h. cc;
  shared = λ t' h f. (h, refl);
  own = λ t' h f. let same : t ≡ t' = eq_of_some h in cc (e, f, ap (is_kernel_table k) same);
}

entry_own :
    (phy : ℕ → ℕ) (tables : List (List Page)) (k : Option ℕ) (t p t' : ℕ) (ps qs : List Page)
    (s s' : Vm)
    → is_kernel_table k t ≡ false
    → length tables ≤ t'
    → get_elem? tables t ≡ some ps
    → get_elem? s'.tables t' ≡ some qs
    → PagesCloned ps qs s s'
    → EntryCloned phy tables k (some t) p (some t') (bit_or (phy t') 0x7) s s'
entry_own phy tables k t p t' ps qs s s' e h here made c = record {
  absent = λ h. cc;
  shared = λ a g f. let same : t ≡ a = eq_of_some g in cc (e, f, ap (is_kernel_table k) same);
  own = λ a g f.
      let same : t ≡ a = eq_of_some g in
      (t', ps, qs, refl, refl, h, ap (get_elem? tables) (sym same) ∙ here, made, c);
}

-- What the loop leaves.
abbrev LoopCloned :
    (ℕ → ℕ) → List (List Page) → List (Option ℕ) → List (Option ℕ) → List ℕ → Vm → Type 0
LoopCloned phy tables kernel srcs ps s =
    (outs : List (Option ℕ)) × (out_ps : List ℕ) × (s' : Vm) × (clone_entries phy kernel srcs ps s
      ≡ some (outs, out_ps, s'))
    × Extended (private_frames tables kernel srcs) s s'
    × EntriesCloned phy tables kernel srcs ps outs out_ps s s'

module _ (phy : ℕ → ℕ) (tables : List (List Page)) where
  loop_own :
      (k : Option ℕ) (t p : ℕ) (kernel srcs : List (Option ℕ)) (ps : List ℕ) (s : Vm)
      → IsMemory s
      → Begins tables s
      → is_kernel_table k t ≡ false
      → t < length tables
      → private_frames tables (k ∷ kernel) (some t ∷ srcs) ≤ left s
      → ((v : Vm)
          → IsMemory v
          → Begins tables v
          → private_frames tables kernel srcs ≤ left v
          → LoopCloned phy tables kernel srcs ps v)
      → LoopCloned phy tables (k ∷ kernel) (some t ∷ srcs) (p ∷ ps) s
  loop_own k t p kernel srcs ps s ok b e inside room rest =
      let (pages, here) = get_elem?_lt tables t inside in
      let same : get_or tables t [] ≡ pages = get_or_of_get_elem? tables t [] here in
      let n : private_frames tables (k ∷ kernel) (some t ∷ srcs)
          ≡ framed pages + private_frames tables kernel srcs =
        rw (e, same) in
      let (qs, v, f, made, c, x) =
        clone_table-PagesCloned t pages s ok (b.old t inside ∙ here) (omega arith) in
      let (outs, out_ps, u, g, y, r) =
        rest v x.memory (Begins-Extended tables (framed pages) s v b x)
          (omega (arith, x.left_over)) in
      (
        some (length s.tables) ∷ outs,
        bit_or (phy (length s.tables)) 0x7 ∷ out_ps,
        u,
        round_own phy k kernel srcs p ps outs out_ps t (length s.tables) s v u e f g,
        subst (λ n. Extended n s u) (sym n)
            (Extended-trans (framed pages) (private_frames tables kernel srcs) s v u x y),
        EntriesCloned-cons phy tables k (some t) p (some (length s.tables))
            (bit_or (phy (length s.tables)) 0x7) kernel srcs ps outs out_ps (framed pages)
            (private_frames tables kernel srcs) s v u
            (entry_own phy tables k t p (length s.tables) pages qs s v e b.longer here made c) x y
            r,
      )

  pub clone_entries-LoopCloned :
      (kernel srcs : List (Option ℕ)) (ps : List ℕ) (s : Vm)
      → IsMemory s
      → Begins tables s
      → length kernel ≡ length srcs
      → length ps ≡ length srcs
      → ((i t : ℕ) → get_elem? srcs i ≡ some (some t) → t < length tables)
      → private_frames tables kernel srcs ≤ left s
      → LoopCloned phy tables kernel srcs ps s
  clone_entries-LoopCloned [] [] [] s ok b h l inside room = (
    [],
    [],
    s,
    unfold clone_entries in refl,
    Extended-refl s ok,
    record { size = refl; size_phy = refl; each = λ i k src p a b c. cc },
  )
  clone_entries-LoopCloned [] [] (p ∷ ps) s ok b h l inside room = absurd (omega arith)
  clone_entries-LoopCloned [] (src ∷ srcs) ps s ok b h l inside room = absurd (omega arith)
  clone_entries-LoopCloned (k ∷ kernel) [] ps s ok b h l inside room = absurd (omega arith)
  clone_entries-LoopCloned (k ∷ kernel) (src ∷ srcs) [] s ok b h l inside room =
      absurd (omega arith)
  clone_entries-LoopCloned (k ∷ kernel) (none ∷ srcs) (p ∷ ps) s ok b h l inside room =
      let (outs, out_ps, u, g, y, r) =
        clone_entries-LoopCloned kernel srcs ps s ok b (omega arith) (omega arith)
          (λ i t. inside (suc i) t) room in
      (
        none ∷ outs,
        0 ∷ out_ps,
        u,
        round_absent phy k kernel srcs p ps outs out_ps s u g,
        y,
        EntriesCloned-cons phy tables k none p none 0 kernel srcs ps outs out_ps 0
            (private_frames tables kernel srcs) s s u (entry_absent phy tables k p s)
            (Extended-refl s ok) y r,
      )
  clone_entries-LoopCloned (k ∷ kernel) (some t ∷ srcs) (p ∷ ps) s ok b h l inside room =
      elim (Bool-cases (is_kernel_table k t)) [
        | inl e ↦
            let n : private_frames tables (k ∷ kernel) (some t ∷ srcs)
                ≡ private_frames tables kernel srcs =
              rw e (omega arith) in
            let (outs, out_ps, u, g, y, r) =
              clone_entries-LoopCloned kernel srcs ps s ok b (omega arith) (omega arith)
                (λ i t. inside (suc i) t) (omega arith) in
            (
              some t ∷ outs,
              p ∷ out_ps,
              u,
              round_shared phy k kernel srcs p ps outs out_ps t s u e g,
              subst (λ n. Extended n s u) (sym n) y,
              EntriesCloned-cons phy tables k (some t) p (some t) p kernel srcs ps outs out_ps 0
                  (private_frames tables kernel srcs) s s u (entry_shared phy tables k t p s e)
                  (Extended-refl s ok) y r,
            )
        | inr e ↦ loop_own k t p kernel srcs ps s ok b e (inside 0 t refl) room (λ v ok' b' room'.
            clone_entries-LoopCloned kernel srcs ps v ok' b' (omega arith) (omega arith)
              (λ i t. inside (suc i) t) room')
      ]
