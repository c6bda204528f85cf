-- ===== src/SortedArray/Insert.antt =====
-- `insert_sorted_array` place by place.
use os_implement.Prelude.{
  ℕ, ◌+◌, ◌-◌, ◌<◌, ◌≡◌, inl, inr, refl, ap, ◌∙◌, true, false, Option, some, List, ◌==◌, ltb, leb,
  if◌then◌else◌, arith, get_elem?, get_elem?_lt, set, length, length-set, get_elem?-set_self,
  get_elem?-set_ne, Bool-cases, ==_iff,
}
use os_implement.SortedArray.{SortedArray, find_place, shift_up, insert_sorted_array}
use os_implement.SortedArray.Shift.{shifted, shift_up-shifted, IsPlace, find_place-IsPlace}

-- Place j after an insertion at place p of an array with cur elements.
abbrev pub inserted : List ℕ → ℕ → ℕ → ℕ → ℕ → Option ℕ
inserted array cur item p j =
    if ltb j p
    then get_elem? array j
    else if j == p
    then some item
    else if leb j (if p == cur then cur else cur + 1)
    then get_elem? array (j - 1)
    else get_elem? array j

insert_last_step :
    (item p temp : ℕ) (a : SortedArray)
    → find_place a.cur 0 a item ≡ some p
    → get_elem? a.array p ≡ some temp
    → (p == a.cur) ≡ true
    → insert_sorted_array item a ≡ some (record a { array = set a.array p item; cur = a.cur + 1 })
unfolding insert_sorted_array
insert_last_step item p temp a e f h = rw (e, f, h)

insert_inside_step :
    (item p temp : ℕ) (out : List ℕ) (a : SortedArray)
    → find_place a.cur 0 a item ≡ some p
    → get_elem? a.array p ≡ some temp
    → (p == a.cur) ≡ false
    → shift_up (a.cur + 1 - p) p temp (set a.array p item) ≡ some out
    → insert_sorted_array item a ≡ some (record a { array = out; cur = a.cur + 1 })
unfolding insert_sorted_array
insert_inside_step item p temp out a e f h g = rw (e, f, h, g)

shifted-inserted :
    (array : List ℕ) (cur item temp p j : ℕ)
    → p < cur
    → p < length array
    → get_elem? array p ≡ some temp
    → shifted (set array p item) temp p (cur + 1 - p) j ≡ inserted array cur item p j
shifted-inserted array cur item temp p j h room e = elim (Bool-cases (j == p)) [
  | inl s ↦
      let at : get_elem? (set array p item) j ≡ some item =
        ap (get_elem? (set array p item)) ((==_iff j p).0 s)
        ∙ get_elem?-set_self array p item room in
      ground (arith, at)
  | inr d ↦
      let here = get_elem?-set_ne array p j item (ground arith) in
      elim (Bool-cases (j == p + 1)) [
        | inl s ↦
            let back : get_elem? array (j - 1) ≡ some temp =
              ap (get_elem? array) (omega (arith, (==_iff j (p + 1)).0 s)) ∙ e in
            ground (arith, here, back)
        | inr d' ↦ elim (Bool-cases (leb j p)) [
          | inl l ↦ ground (arith, here)
          | inr l ↦
              let back = get_elem?-set_ne array p (j - 1) item (ground arith) in
              ground (arith, here, back)
        ]
      ]
]

-- With room for one element more, and one more behind it, an insertion puts the item at its place
-- and moves the elements from there on up by one.
pub insert_sorted_array-inserted :
    (item : ℕ) (a : SortedArray)
    → a.cur + 1 < length a.array
    → (p : ℕ) × (a' : SortedArray) × (insert_sorted_array item a ≡ some a')
      × IsPlace a item p
      × (a'.cur ≡ a.cur + 1)
      × (a'.size ≡ a.size)
      × (length a'.array ≡ length a.array)
      × (a'.cmp_fun ≡ a.cmp_fun)
      × ((j : ℕ) → get_elem? a'.array j ≡ inserted a.array a.cur item p j)
insert_sorted_array-inserted item a room =
    let (p, e, place) =
      find_place-IsPlace a.cur 0 item a (omega arith) (omega arith)
        (λ j x h g. absurd (omega arith)) in
    let (temp, f) = get_elem?_lt a.array p (omega (arith, place.inside)) in
    elim (Bool-cases (p == a.cur)) [
      | inl h ↦ (
        p,
        record a { array = set a.array p item; cur = a.cur + 1 },
        insert_last_step item p temp a e f h,
        place,
        refl,
        refl,
        length-set a.array p item,
        refl,
        λ j. at_end p (omega (arith, (==_iff p a.cur).0 h)) j,
      )
      | inr h ↦
          let (out, g, size, places) =
            shift_up-shifted (a.cur + 1 - p) p temp (set a.array p item)
              (omega (arith, length-set a.array p item, place.inside)) in
          (
            p,
            record a { array = out; cur = a.cur + 1 },
            insert_inside_step item p temp out a e f h g,
            place,
            refl,
            refl,
            size ∙ length-set a.array p item,
            refl,
            λ j.
                places j
                ∙ shifted-inserted a.array a.cur item temp p j (ground (arith, place.inside))
                    (omega (arith, place.inside)) f,
          )
    ]
  where
    at_end :
        (p : ℕ)
        → p ≡ a.cur
        → (j : ℕ) → get_elem? (set a.array p item) j ≡ inserted a.array a.cur item p j
    at_end p e j = elim (Bool-cases (j == p)) [
      | inl s ↦
          let at : get_elem? (set a.array p item) j ≡ some item =
            ap (get_elem? (set a.array p item)) ((==_iff j p).0 s)
            ∙ get_elem?-set_self a.array p item (omega arith) in
          ground (arith, at)
      | inr d ↦ ground (arith, get_elem?-set_ne a.array p j item (ground arith))
    ]
