-- ===== src/Frames/Count.antt =====
-- How many frames are free.
use os_implement.Prelude.{
  ℕ, zero, suc, ◌+◌, ◌<◌, ◌≡◌, inl, inr, true, false, List, ◌==◌, ltb, if◌then◌else◌, arith,
  Bool-cases, ap, ==_iff,
}
use os_implement.Frames.Bitmap.{used, Marked}

-- The number of free frames below k.
unfoldable pub free_count : List ℕ → ℕ → ℕ
free_count frames zero = 0
free_count frames (suc k) = free_count frames k + (if used frames k then 0 else 1)

-- Marking a free frame leaves one less.
pub free_count-Marked :
    (frames after : List ℕ) (n k : ℕ)
    → Marked frames n true after
    → used frames n ≡ false
    → free_count after k + (if ltb n k then 1 else 0) ≡ free_count frames k
unfolding free_count
free_count-Marked frames after n zero m free = ground arith
free_count-Marked frames after n (suc k) m free =
    let ih = free_count-Marked frames after n k m free in
    let same = m.marks k in
    elim (Bool-cases (k == n)) [
      | inl e ↦ ground (arith, ap (used frames) ((==_iff k n).0 e))
      | inr d ↦ ground arith
    ]

-- Where some are left, one can be found.
pub free_count_pos :
    (frames : List ℕ) (k : ℕ)
    → 0 < free_count frames k
    → (n : ℕ) × (n < k) × (used frames n ≡ false)
unfolding free_count
free_count_pos frames zero h = elim h [ ]
free_count_pos frames (suc k) h = elim (Bool-cases (used frames k)) [
  | inl e ↦ let (n, p, q) = free_count_pos frames k (ground arith) in (n, omega arith, q)
  | inr d ↦ (k, omega arith, d)
]
