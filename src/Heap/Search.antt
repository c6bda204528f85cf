-- ===== src/Heap/Search.antt =====
-- The search of `find_hole_fit_first`.
use os_implement.Prelude.{
  ℕ, zero, suc, ◌+◌, ◌≤◌, ◌<◌, ◌≡◌, ◌⊎◌, inl, inr, refl, ◌∙◌, Bool, true, false, none, some, arith,
  Bool-cases, length, get_elem?_lt, ltb,
}
use os_implement.SortedArray.{find_sorted_array}
use os_implement.Heap.{Heap, fits, find_hole, find_hole_fit_first}

-- The hole at a place of the index fits, or does not.
abbrev pub FitsAt : ℕ → ℕ → Heap → ℕ → Bool → Type 0
FitsAt size page_align s j b =
    (header : ℕ) × (find_sorted_array j s.index ≡ some header)
    × (fits size page_align s.memory header ≡ b)

find_sorted_array_lt :
    (j : ℕ) (s : Heap)
    → s.index.size ≤ length s.index.array
    → j < s.index.size
    → (header : ℕ) × (find_sorted_array j s.index ≡ some header)
unfolding find_sorted_array
find_sorted_array_lt j s room h =
    let (x, e) = get_elem?_lt s.index.array j (omega arith) in (x, ground (arith, e))

module _ (size page_align : ℕ) (s : Heap) where
  find_hole_hit :
      (n i header : ℕ)
      → find_sorted_array i s.index ≡ some header
      → fits size page_align s.memory header ≡ true
      → find_hole (suc n) i size page_align s ≡ some (some i)
  unfolding find_hole
  find_hole_hit n i header e f = rw (e, f)

  find_hole_miss :
      (n i header : ℕ)
      → find_sorted_array i s.index ≡ some header
      → fits size page_align s.memory header ≡ false
      → find_hole (suc n) i size page_align s ≡ find_hole n (i + 1) size page_align s
  unfolding find_hole
  find_hole_miss n i header e f = rw (e, f)

  extend :
      (n i j : ℕ)
      → FitsAt size page_align s i false
      → i ≤ j
      → (i + 1 ≤ j → FitsAt size page_align s j false)
      → FitsAt size page_align s j false
  extend n i j f h g = elim (Bool-cases (ltb i j)) [
    | inl e ↦ g (ground arith)
    | inr e ↦ let same : i ≡ j = ground arith in rw (← same) f
  ]

  find_hole-first :
      (n i : ℕ)
      → i + n ≡ s.index.size
      → s.index.size ≤ length s.index.array
      → ((k : ℕ) × (find_hole n i size page_align s ≡ some (some k))
          × FitsAt size page_align s k true
          × ((j : ℕ) → i ≤ j → j < k → FitsAt size page_align s j false))
        ⊎ ((find_hole n i size page_align s ≡ some none)
            × ((j : ℕ) → i ≤ j → j < s.index.size → FitsAt size page_align s j false))
  find_hole-first zero i e room = inr (unfold find_hole in refl, λ j h l. absurd (omega arith))
  find_hole-first (suc n) i e room =
      let (header, f) = find_sorted_array_lt i s room (omega arith) in
      elim (Bool-cases (fits size page_align s.memory header)) [
        | inl t ↦
            inl (i, find_hole_hit n i header f t, (header, f, t), λ j h l. absurd (omega arith))
        | inr t ↦ elim (find_hole-first n (i + 1) (omega arith) room) [
          | inl (k, g, fit, before) ↦ inl (
            k,
            find_hole_miss n i header f t ∙ g,
            fit,
            λ j h l. extend n i j (header, f, t) h (λ u. before j u l),
          )
          | inr (g, all) ↦ inr (
            find_hole_miss n i header f t ∙ g,
            λ j h l. extend n i j (header, f, t) h (λ u. all j u l),
          )
        ]
      ]

-- In an index whose array has its size, the search returns the first place whose hole fits, and -1 exactly if none does. It
-- goes through the whole size of the index, and not only through the holes that were inserted.
pub find_hole_fit_first-first :
    (size page_align : ℕ) (s : Heap)
    → s.index.size ≤ length s.index.array
    → ((k : ℕ) × (find_hole_fit_first size page_align s ≡ some (some k))
        × FitsAt size page_align s k true
        × ((j : ℕ) → j < k → FitsAt size page_align s j false))
      ⊎ ((find_hole_fit_first size page_align s ≡ some none)
          × ((j : ℕ) → j < s.index.size → FitsAt size page_align s j false))
unfolding find_hole_fit_first
find_hole_fit_first-first size page_align s room =
    elim (find_hole-first size page_align s s.index.size 0 (omega arith) room) [
      | inl (k, e, f, before) ↦ inl (k, e, f, λ j h. before j (omega arith) h)
      | inr (e, all) ↦ inr (e, λ j h. all j (omega arith) h)
    ]
