-- ===== src/SortedArray/Remove.antt =====
-- `remove_sorted_array` against `find_sorted_array`.
use os_implement.Prelude.{
  ℕ, zero, suc, ◌+◌, ◌-◌, ◌≤◌, ◌<◌, ◌≡◌, ◌≢◌, inl, inr, refl, sym, ap, ◌∙◌, true, ◌&&◌, ◌||◌, none,
  some, List, ◌==◌, ltb, leb, if◌then◌else◌, arith, get_elem?, get_elem?_lt, set, length,
  length-set, get_elem?-set_self, get_elem?-set_ne, Bool-cases,
}
use os_implement.SortedArray.{SortedArray, find_sorted_array, shift_down, remove_sorted_array}

-- The place whose element stands at place j when those from i to i + n - 1 have moved down by one.
abbrev moved : ℕ → ℕ → ℕ → ℕ
moved i n j = if leb i (j + 1) && ltb (j + 1) (i + n) then j + 1 else j

shift_down_step :
    (n i x : ℕ) (array : List ℕ)
    → get_elem? array i ≡ some x
    → shift_down (suc n) i array ≡ shift_down n (i + 1) (set array (i - 1) x)
unfolding shift_down
shift_down_step n i x array e = ground (arith, e)

moved-set :
    (array : List ℕ) (n i j x : ℕ)
    → 0 < i
    → i < length array
    → get_elem? array i ≡ some x
    → get_elem? (set array (i - 1) x) (moved (i + 1) n j) ≡ get_elem? array (moved i (suc n) j)
moved-set array n i j x pos h e = elim (Bool-cases (j + 1 == i)) [
  | inl s ↦
      let same : moved (i + 1) n j ≡ i - 1 = ground arith in
      let next : moved i (suc n) j ≡ i = ground arith in
      ap (get_elem? (set array (i - 1) x)) same
      ∙ get_elem?-set_self array (i - 1) x (omega arith)
      ∙ sym (ap (get_elem? array) next ∙ e)
  | inr d ↦
      let other : i - 1 ≢ moved (i + 1) n j = ground arith in
      get_elem?-set_ne array (i - 1) (moved (i + 1) n j) x other
      ∙ ap (get_elem? array) (ground arith)
]

shift_down-moved :
    (n i : ℕ) (array : List ℕ)
    → 0 < i
    → i + n ≤ length array
    → (out : List ℕ) × (shift_down n i array ≡ some out)
      × (length out ≡ length array)
      × ((j : ℕ) → get_elem? out j ≡ get_elem? array (moved i n j))
shift_down-moved zero i array pos h =
    (array, unfold shift_down in refl, refl, λ j. ap (get_elem? array) (ground arith))
shift_down-moved (suc n) i array pos h =
    let (x, e) = get_elem?_lt array i (omega arith) in
    let (out, f, size, places) =
      shift_down-moved n (i + 1) (set array (i - 1) x) (omega arith)
        (omega (arith, length-set array (i - 1) x)) in
    (
      out,
      shift_down_step n i x array e ∙ f,
      size ∙ length-set array (i - 1) x,
      λ j. places j ∙ moved-set array n i j x pos (omega arith) e,
    )

remove_step :
    (index : ℕ) (out : List ℕ) (a : SortedArray)
    → index < a.size
    → shift_down (a.size - (index + 1)) (index + 1) a.array ≡ some out
    → remove_sorted_array index a ≡ some (record a { array = out; size = a.size - 1 })
unfolding remove_sorted_array
remove_step index out a h e = ground (arith, e)

-- Removing an index inside the size takes that element out for `find_sorted_array`: the ones before
-- it are found where they were, and those behind it one index lower. The size falls by one; `cur`,
-- where the next insertion ends, does not. Any other index changes nothing.
pub find-remove :
    (index : ℕ) (a : SortedArray)
    → a.size ≤ length a.array
    → (a' : SortedArray) × (remove_sorted_array index a ≡ some a')
      × (a'.size ≡ (if ltb index a.size then a.size - 1 else a.size))
      × (a'.cur ≡ a.cur)
      × (length a'.array ≡ length a.array)
      × ((j : ℕ)
          → find_sorted_array j a'
            ≡ find_sorted_array (if ltb j index || leb a.size index then j else j + 1) a)
unfolding find_sorted_array
find-remove index a room = elim (Bool-cases (ltb index a.size)) [
  | inl h ↦
      let (out, e, size, places) =
        shift_down-moved (a.size - (index + 1)) (index + 1) a.array (omega arith) (ground arith) in
      (
        record a { array = out; size = a.size - 1 },
        remove_step index out a (ground arith) e,
        rw h,
        refl,
        size,
        λ j. found j out h (places j),
      )
  | inr h ↦ (a, unfold remove_sorted_array in ground arith, rw h, refl, refl, λ j. ground arith)
]
  where
    found :
        (j : ℕ) (out : List ℕ)
        → ltb index a.size ≡ true
        → get_elem? out j ≡ get_elem? a.array (moved (index + 1) (a.size - (index + 1)) j)
        → (if leb (a.size - 1) j then none else get_elem? out j) ≡ (
            let k = (if ltb j index || leb a.size index then j else j + 1) in
            if leb a.size k then none else get_elem? a.array k)
    found j out h e = elim (Bool-cases (ltb j index)) [
      | inl s ↦
          let same : moved (index + 1) (a.size - (index + 1)) j ≡ j = ground arith in
          ground (arith, e ∙ ap (get_elem? a.array) same)
      | inr s ↦ elim (Bool-cases (leb (a.size - 1) j)) [
        | inl t ↦ ground arith
        | inr t ↦
            let next : moved (index + 1) (a.size - (index + 1)) j ≡ j + 1 = ground arith in
            ground (arith, e ∙ ap (get_elem? a.array) next)
      ]
    ]
