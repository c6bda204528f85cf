-- ===== src/Paging/Lookup.antt =====
-- `get_page`: the entry of an address.
use os_implement.Prelude.{
  ℕ, zero, suc, ◌+◌, ◌/◌, ◌%◌, ◌<◌, ◌≡◌, ◌≢◌, ◌⊎◌, inl, inr, refl, sym, ap, ◌∙◌, bit_or, Bool, true,
  false, none, some, List, [], ◌∷◌, ◌++◌, arith, length, length-append, length-set,
  length-replicate, get_elem?, set, replicate, eq_of_some,
}
use os_implement.Frames.{Page}
use os_implement.Paging.{PageDir, Vm, Slot, zero_page, get_page}

-- Each entry of the directory has a table of its own, of 1024 pages.
pub record IsTables (dir : PageDir) (s : Vm) : Type 0 where
  pub size : length dir.page_table ≡ 1024
  pub size_phy : length dir.page_table_phy ≡ 1024
  pub inside : (i t : ℕ) → get_elem? dir.page_table i ≡ some (some t) → t < length s.tables
  pub apart :
      (i j t : ℕ)
      → get_elem? dir.page_table i ≡ some (some t)
      → get_elem? dir.page_table j ≡ some (some t)
      → i ≡ j
  pub full : (t : ℕ) (ps : List Page) → get_elem? s.tables t ≡ some ps → length ps ≡ 1024

-- The slot of an address in a table, and the directory and the tables after one was made.
abbrev pub slot_in : ℕ → ℕ → Slot
slot_in t addr = record { table = t; index = addr / 0x1000 % 1024 }

abbrev pub dir_with : (ℕ → ℕ) → ℕ → PageDir → Vm → PageDir
dir_with phy addr dir s = record dir {
  page_table = set dir.page_table (addr / 0x1000 / 1024) (some (length s.tables));
  page_table_phy =
      set dir.page_table_phy (addr / 0x1000 / 1024) (bit_or (phy (length s.tables)) 0x7);
}

abbrev pub vm_with : Vm → Vm
vm_with s = record s { tables = s.tables ++ replicate 1024 zero_page ∷ [] }

module _ (phy : ℕ → ℕ) (addr : ℕ) (dir : PageDir) (s : Vm) where
  pub get_page_found :
      (make : Bool) (t : ℕ)
      → get_elem? dir.page_table (addr / 0x1000 / 1024) ≡ some (some t)
      → get_page phy addr make dir s ≡ some (some (slot_in t addr), dir, s)
  unfolding get_page
  get_page_found make t e = ground (arith, e)

  pub get_page_made :
      get_elem? dir.page_table (addr / 0x1000 / 1024) ≡ some none
      → get_page phy addr true dir s
        ≡ some (some (slot_in (length s.tables) addr), dir_with phy addr dir s, vm_with s)
  unfolding get_page
  get_page_made e = ground (arith, e)

-- An entry after a write at index i is the one written, or an old one at another index.
after_set :
    {A : Type 0} (xs : List A) (i j : ℕ) (x y : A)
    → get_elem? (set xs i x) j ≡ some y
    → ((j ≡ i) × (y ≡ x)) ⊎ ((j ≢ i) × (get_elem? xs j ≡ some y))
after_set [] i j x y h = cc
after_set (z ∷ zs) zero zero x y h = inl (refl, sym (eq_of_some h))
after_set (z ∷ zs) zero (suc j) x y h = inr (ground arith, h)
after_set (z ∷ zs) (suc i) zero x y h = inr (ground arith, h)
after_set (z ∷ zs) (suc i) (suc j) x y h = elim (after_set zs i j x y h) [
  | inl (e, e') ↦ inl (ap suc e, e')
  | inr (d, e) ↦ inr (ground arith, e)
]

after_append :
    {A : Type 0} (xs : List A) (x y : A) (i : ℕ)
    → get_elem? (xs ++ x ∷ []) i ≡ some y
    → (get_elem? xs i ≡ some y) ⊎ (y ≡ x)
after_append [] x y zero h = inr (sym (eq_of_some h))
after_append [] x y (suc i) h = cc
after_append (z ∷ zs) x y zero h = inl h
after_append (z ∷ zs) x y (suc i) h = after_append zs x y i h

pub IsTables-made :
    (phy : ℕ → ℕ) (addr : ℕ) (dir : PageDir) (s : Vm)
    → IsTables dir s
    → IsTables (dir_with phy addr dir s) (vm_with s)
IsTables-made phy addr dir s ok = record {
  size = length-set dir.page_table i (some (length s.tables)) ∙ ok.size;
  size_phy = length-set dir.page_table_phy i _ ∙ ok.size_phy;
  inside = λ j t e. elim (after_set dir.page_table i j (some (length s.tables)) (some t) e) [
    | inl (p, q) ↦ omega (arith, eq_of_some q, grown)
    | inr (p, q) ↦ omega (arith, ok.inside j t q, grown)
  ];
  apart = λ j k t e f. elim (after_set dir.page_table i j (some (length s.tables)) (some t) e) [
    | inl (p, q) ↦ elim (after_set dir.page_table i k (some (length s.tables)) (some t) f) [
      | inl (p', q') ↦ p ∙ sym p'
      | inr (p', q') ↦ absurd (omega (arith, eq_of_some q, ok.inside k t q'))
    ]
    | inr (p, q) ↦ elim (after_set dir.page_table i k (some (length s.tables)) (some t) f) [
      | inl (p', q') ↦ absurd (omega (arith, eq_of_some q', ok.inside j t q))
      | inr (p', q') ↦ ok.apart j k t q q'
    ]
  ];
  full = λ t ps e. elim (after_append s.tables (replicate 1024 zero_page) ps t e) [
    | inl p ↦ ok.full t ps p
    | inr p ↦ ap length p ∙ length-replicate 1024 zero_page
  ];
}
  where
    i : ℕ
    i = addr / 0x1000 / 1024

    grown : length (vm_with s).tables ≡ length s.tables + 1
    grown = omega (arith, length-append s.tables (replicate 1024 zero_page ∷ []))

-- The entry without `make`: a hit leaves all as it is.
get_page_hit :
    (phy : ℕ → ℕ) (addr : ℕ) (dir dir' : PageDir) (s s' : Vm) (slot : Slot)
    → get_page phy addr false dir s ≡ some (some slot, dir', s')
    → (get_elem? dir.page_table (addr / 0x1000 / 1024) ≡ some (some slot.table))
      × (slot.index ≡ addr / 0x1000 % 1024)
unfolding get_page
get_page_hit phy addr dir dir' s s' slot h = ground (arith, h)

-- Two addresses have the same entry only if they lie in the same page.
pub get_page_apart :
    (phy : ℕ → ℕ) (a b : ℕ) (dir d e : PageDir) (s t u : Vm) (slot : Slot)
    → IsTables dir s
    → get_page phy a false dir s ≡ some (some slot, d, t)
    → get_page phy b false dir s ≡ some (some slot, e, u)
    → a / 0x1000 ≡ b / 0x1000
get_page_apart phy a b dir d e s t u slot ok p q =
    let (x, y) = get_page_hit phy a dir d s t slot p in
    let (z, w) = get_page_hit phy b dir e s u slot q in
    omega (arith, ok.apart (a / 0x1000 / 1024) (b / 0x1000 / 1024) slot.table x z)
