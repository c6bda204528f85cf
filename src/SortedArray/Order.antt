-- ===== src/SortedArray/Order.antt =====
-- Where an item goes with the comparisons that the program has.
use os_implement.Prelude.{
  ℕ, zero, suc, ◌+◌, ◌-◌, ◌≤◌, ◌<◌, ◌≡◌, inl, inr, refl, ap, ◌∙◌, false, some, List, [], ◌∷◌, ◌==◌,
  arith, get_elem?, get_elem?_lt, length, take, Bool-cases, ==_iff, eq_of_some,
}
use mathlib.Core.Path.{ap₂}
use os_implement.SortedArray.{SortedArray, is_negative, insert_sorted_array}
use os_implement.SortedArray.Insert.{inserted, insert_sorted_array-inserted}
use os_implement.SortedArray.Shift.{IsPlace}

take_ext :
    (n : ℕ) (xs ys : List ℕ)
    → n ≤ length xs
    → n ≤ length ys
    → ((j : ℕ) → j < n → get_elem? xs j ≡ get_elem? ys j)
    → take n xs ≡ take n ys
take_ext zero xs ys h l e = refl
take_ext (suc n) [] ys h l e = absurd (omega arith)
take_ext (suc n) (x ∷ xs) [] h l e = absurd (omega arith)
take_ext (suc n) (x ∷ xs) (y ∷ ys) h l e =
    ap₂ ◌∷◌ (eq_of_some (e 0 (omega arith)))
      (take_ext n xs ys (omega arith) (omega arith) (λ j k. e (suc j) (omega arith)))

-- With room, and a comparison that is never negative, as `cmp` and `header_cmp_less` are, each item goes in
-- front of all others: the array is a stack, whatever the keys.
pub insert_sorted_array-take :
    (item : ℕ) (a : SortedArray)
    → ((x y : ℕ) → is_negative (a.cmp_fun x y) ≡ false)
    → a.cur + 1 < length a.array
    → (a' : SortedArray) × (insert_sorted_array item a ≡ some a')
      × (a'.cur ≡ a.cur + 1)
      × (a'.size ≡ a.size)
      × (length a'.array ≡ length a.array)
      × (take a'.cur a'.array ≡ item ∷ take a.cur a.array)
insert_sorted_array-take item a never room =
    let (p, a', e, place, n, same, size, _, places) = insert_sorted_array-inserted item a room in
    (
      a',
      e,
      n,
      same,
      size,
      ap (λ k. take k a'.array) (n ∙ one_more a.cur) ∙ stacked a' p place size places,
    )
  where
    one_more : (k : ℕ) → k + 1 ≡ suc k
    one_more k = omega arith

    first : (p : ℕ) → IsPlace a item p → p ≡ 0
    first p place = elim (Bool-cases (p == 0)) [
      | inl e ↦ (==_iff p 0).0 e
      | inr e ↦
          let (x, f) = get_elem?_lt a.array 0 (omega arith) in
          cc (place.before 0 x (ground arith) f, never x item)
    ]

    stacked :
        (a' : SortedArray) (p : ℕ)
        → IsPlace a item p
        → length a'.array ≡ length a.array
        → ((j : ℕ) → get_elem? a'.array j ≡ inserted a.array a.cur item p j)
        → take (suc a.cur) a'.array ≡ item ∷ take a.cur a.array
    stacked a' p place size places =
        take_ext (suc a.cur) a'.array (item ∷ a.array) (omega arith) (omega arith)
          (λ j h. places j ∙ at p j (first p place) h)
      where
        at :
            (p j : ℕ)
            → p ≡ 0
            → j < suc a.cur
            → inserted a.array a.cur item p j ≡ get_elem? (item ∷ a.array) j
        at p zero z h = ground arith
        at p (suc j) z h =
            let k : suc j - 1 ≡ j = omega arith in ground (arith, ap (get_elem? a.array) k)
