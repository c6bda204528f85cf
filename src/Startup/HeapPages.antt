-- ===== src/Startup/HeapPages.antt =====
-- The two loops of `init_paging` over the pages of the heap.
use os_implement.Prelude.{
  ℕ, zero, suc, ◌+◌, ◌-◌, ◌*◌, ◌/◌, ◌^◌, ◌≤◌, ◌<◌, ◌≡◌, ◌≢◌, ◌⊎◌, inl, inr, refl, sym, ap, ◌∙◌,
  Option, none, some, arith, Bool-cases, ◌==◌, ==_iff,
}
use mathlib.Core.Path.{subst}
use os_implement.Paging.{Slot, zero_page}
use os_implement.Paging.Lookup.{IsTables}
use os_implement.Paging.Mapping.{page_at, VacantAt}
use os_implement.Heap.{add32}
use os_implement.Startup.{Machine, make_page, make_tables}
use os_implement.Paging.Exact.{IsExact, kernel_page}
use os_implement.Startup.Step.{IsIdentity, MadeAt, make_page-MadeAt}

-- The number of the first page of the heap, and that of its pages.
abbrev pub first_page : ℕ
first_page = 0xc_0000

abbrev pub heap_pages : ℕ
heap_pages = 256

make_tables_step :
    (rounds n : ℕ) (s s' : Machine) (slot : Option Slot)
    → n < 2 ^ 20 - 1
    → make_page (n * 0x1000) s ≡ some (slot, s')
    → make_tables (suc rounds) (n * 0x1000) s ≡ make_tables rounds ((n + 1) * 0x1000) s'
unfolding make_tables
make_tables_step rounds n s s' slot small e =
    let next : add32 (n * 0x1000) 0x1000 ≡ (n + 1) * 0x1000 = omega arith in rw (e, next) refl

-- With j rounds done: nothing is mapped, and j pages of the heap have entries.
pub record IsPrepared (start j : ℕ) (s : Machine) : Type 0 where
  pub identity : IsIdentity 0 s
  pub clear : (k : ℕ) → k < j → page_at (first_page + k) s.vm_page_dir s.vm ≡ some zero_page
  pub grows : start ≤ s.kernel.placement_address
  pub few : s.kernel.placement_address ≤ start + 0x2000 * ((j + 1023) / 1024)

prepare_step :
    (start j t : ℕ) (s s' : Machine)
    → IsPrepared start j s
    → j < heap_pages
    → MadeAt (first_page + j) t s s'
    → IsPrepared start (j + 1) s'
prepare_step start j t s s' ok small m = record {
  identity = record {
    kheap = m.kheap;
    tables = m.tables;
    exact = subst (IsExact 0) (sym m.phys) ok.identity.exact;
    mapped = λ p h. absurd (omega arith);
    above = λ p h. (m.keeps p).vacant (ok.identity.above p h);
  };
  clear = λ k h. elim (Bool-cases (k == j)) [
    | inl e ↦
        let same : j ≡ k = sym ((==_iff k j).0 e) in
        subst (λ i. page_at (first_page + i) s'.vm_page_dir s'.vm ≡ some zero_page) same
          (m.clear (ok.identity.above (first_page + j) (omega arith)))
    | inr d ↦ (m.keeps (first_page + k)).mapped zero_page (ok.clear k (ground (arith, d, h)))
  ];
  grows = omega (arith, ok.grows, m.grows);
  few = elim (Bool-cases (j == 0)) [
    | inl e ↦ let e' : j ≡ 0 = (==_iff j 0).0 e in omega (arith, ok.few, m.few)
    | inr d ↦
        let d' : j ≢ 0 = λ e. cc (d, (==_iff j 0).1 e) in
        omega (
          arith,
          ok.few,
          m.same zero_page (first_page + (j - 1)) (omega arith) (ok.clear (j - 1) (omega arith)),
        )
  ];
}

pub make_tables-IsPrepared :
    (start rounds j : ℕ) (s : Machine)
    → IsPrepared start j s
    → j + rounds ≡ heap_pages
    → start ≤ 0xe1_0000
    → (s' : Machine) × (make_tables rounds ((first_page + j) * 0x1000) s ≡ some s')
      × IsPrepared start heap_pages s'
make_tables-IsPrepared start zero j s ok e low =
    (s, unfold make_tables in refl, subst (λ k. IsPrepared start k s) (omega arith) ok)
make_tables-IsPrepared start (suc rounds) j s ok e low =
    let (t, s1, f, m) =
      make_page-MadeAt (first_page + j) s ok.identity.kheap ok.identity.tables (omega arith)
        (omega (arith, ok.few)) in
    let (s2, g, r) =
      make_tables-IsPrepared start rounds (j + 1) s1
        (prepare_step start j t s s1 ok (omega arith) m) (omega arith) low in
    let place : first_page + j + 1 ≡ first_page + (j + 1) = omega arith in
    (
      s2,
      make_tables_step rounds (first_page + j) s s1 _ (omega arith) f
          ∙ ap (λ k. make_tables rounds (k * 0x1000) s1) place
          ∙ g,
      r,
    )

-- With N pages of the kernel and j of the heap mapped.
pub record IsMapped (N j : ℕ) (s : Machine) : Type 0 where
  pub kheap : s.kernel.kheap ≡ none
  pub tables : IsTables s.vm_page_dir s.vm
  pub exact : IsExact (N + j) s.vm.phys
  pub low : (p : ℕ) → p < N → page_at p s.vm_page_dir s.vm ≡ some (kernel_page p)
  pub heap :
      (k : ℕ) → k < j → page_at (first_page + k) s.vm_page_dir s.vm ≡ some (kernel_page (N + k))
  pub rest :
      (k : ℕ)
      → j ≤ k
      → k < heap_pages
      → page_at (first_page + k) s.vm_page_dir s.vm ≡ some zero_page
  pub above :
      (p : ℕ)
      → N ≤ p
      → (p < first_page) ⊎ (first_page + heap_pages ≤ p)
      → VacantAt p s.vm_page_dir s.vm
