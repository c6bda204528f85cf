-- ===== src/SortedArray/Shift.antt =====
-- The two loops of `insert_sorted_array`.
use os_implement.Prelude.{
  ℕ, zero, suc, ◌+◌, ◌-◌, ◌≤◌, ◌<◌, ◌≡◌, inl, inr, refl, sym, ap, ◌∙◌, true, false, ◌||◌, Option,
  some, List, ◌==◌, ltb, leb, if◌then◌else◌, arith, get_elem?, get_elem?_lt, set, length,
  length-set, get_elem?-set_self, get_elem?-set_ne, Bool-cases, ==_iff, eq_of_some,
}
use os_implement.SortedArray.{SortedArray, is_negative, find_place, shift_up}

-- Place j of an array whose n places behind iter move up by one, with temp in the first of them.
abbrev pub shifted : List ℕ → ℕ → ℕ → ℕ → ℕ → Option ℕ
shifted array temp iter n j =
    if leb j iter || ltb (iter + n) j
    then get_elem? array j
    else if j == iter + 1
    then some temp
    else get_elem? array (j - 1)

shifted-set :
    (array : List ℕ) (temp temp_2 iter n j : ℕ)
    → iter + 1 < length array
    → get_elem? array (iter + 1) ≡ some temp_2
    → shifted (set array (iter + 1) temp) temp_2 (iter + 1) n j ≡ shifted array temp iter (suc n) j
shifted-set array temp temp_2 iter n j h e = elim (Bool-cases (j == iter + 1)) [
  | inl s ↦
      let at : get_elem? (set array (iter + 1) temp) j ≡ some temp =
        ap (get_elem? (set array (iter + 1) temp)) ((==_iff j (iter + 1)).0 s)
        ∙ get_elem?-set_self array (iter + 1) temp h in
      ground (arith, at)
  | inr d ↦
      let here = get_elem?-set_ne array (iter + 1) j temp (ground arith) in
      elim (Bool-cases (j == iter + 2)) [
        | inl s ↦
            let back : get_elem? array (j - 1) ≡ some temp_2 =
              ap (get_elem? array) (omega (arith, (==_iff j (iter + 2)).0 s)) ∙ e in
            ground (arith, here, back)
        | inr d' ↦ elim (Bool-cases (leb j (iter + 1))) [
          | inl l ↦ ground (arith, here)
          | inr l ↦
              let back = get_elem?-set_ne array (iter + 1) (j - 1) temp (ground arith) in
              ground (arith, here, back)
        ]
      ]
]

shift_up_step :
    (n iter temp temp_2 : ℕ) (array : List ℕ)
    → get_elem? array (iter + 1) ≡ some temp_2
    → shift_up (suc n) iter temp array ≡ shift_up n (iter + 1) temp_2 (set array (iter + 1) temp)
unfolding shift_up
shift_up_step n iter temp temp_2 array e = ground (arith, e)

pub shift_up-shifted :
    (n iter temp : ℕ) (array : List ℕ)
    → iter + n < length array
    → (out : List ℕ) × (shift_up n iter temp array ≡ some out)
      × (length out ≡ length array)
      × ((j : ℕ) → get_elem? out j ≡ shifted array temp iter n j)
shift_up-shifted zero iter temp array h = (array, unfold shift_up in refl, refl, λ j. ground arith)
shift_up-shifted (suc n) iter temp array h =
    let (temp_2, e) = get_elem?_lt array (iter + 1) (omega arith) in
    let (out, f, size, places) =
      shift_up-shifted n (iter + 1) temp_2 (set array (iter + 1) temp)
        (omega (arith, length-set array (iter + 1) temp)) in
    (
      out,
      shift_up_step n iter temp temp_2 array e ∙ f,
      size ∙ length-set array (iter + 1) temp,
      λ j. places j ∙ shifted-set array temp temp_2 iter n j (omega arith) e,
    )

-- The place of an item: the first whose element the comparison does not find less than the item.
pub record IsPlace (a : SortedArray) (item p : ℕ) : Type 0 where
  pub inside : p ≤ a.cur
  pub before :
      (j x : ℕ) → j < p → get_elem? a.array j ≡ some x → is_negative (a.cmp_fun x item) ≡ true
  pub here :
      (x : ℕ) → p < a.cur → get_elem? a.array p ≡ some x → is_negative (a.cmp_fun x item) ≡ false

find_place_less :
    (n iter x item : ℕ) (a : SortedArray)
    → get_elem? a.array iter ≡ some x
    → is_negative (a.cmp_fun x item) ≡ true
    → find_place (suc n) iter a item ≡ find_place n (iter + 1) a item
unfolding find_place
find_place_less n iter x item a e h = rw (e, h)

find_place_stop :
    (n iter x item : ℕ) (a : SortedArray)
    → get_elem? a.array iter ≡ some x
    → is_negative (a.cmp_fun x item) ≡ false
    → find_place (suc n) iter a item ≡ some iter
unfolding find_place
find_place_stop n iter x item a e h = rw (e, h)

pub find_place-IsPlace :
    (n iter item : ℕ) (a : SortedArray)
    → iter + n ≡ a.cur
    → a.cur ≤ length a.array
    → ((j x : ℕ) → j < iter → get_elem? a.array j ≡ some x → is_negative (a.cmp_fun x item) ≡ true)
    → (p : ℕ) × (find_place n iter a item ≡ some p) × IsPlace a item p
find_place-IsPlace zero iter item a e room before = (
  iter,
  unfold find_place in refl,
  record { inside = omega arith; before = before; here = λ x h g. absurd (omega arith) },
)
find_place-IsPlace (suc n) iter item a e room before =
    let (x, g) = get_elem?_lt a.array iter (omega arith) in
    elim (Bool-cases (is_negative (a.cmp_fun x item))) [
      | inl h ↦
          let (p, f, r) =
            find_place-IsPlace n (iter + 1) item a (omega arith) room
              (λ j y l q. more x g h j y l q) in
          (p, find_place_less n iter x item a g h ∙ f, r)
      | inr h ↦ (
        iter,
        find_place_stop n iter x item a g h,
        record {
          inside = omega arith;
          before = before;
          here = λ y l q.
              let same : x ≡ y = eq_of_some (sym g ∙ q) in
              ap (λ z. is_negative (a.cmp_fun z item)) (sym same) ∙ h;
        },
      )
    ]
  where
    more :
        (x : ℕ)
        → get_elem? a.array iter ≡ some x
        → is_negative (a.cmp_fun x item) ≡ true
        → (j y : ℕ) → j < iter + 1
        → get_elem? a.array j ≡ some y
        → is_negative (a.cmp_fun y item) ≡ true
    more x g h j y l q = elim (Bool-cases (j == iter)) [
      | inl s ↦
          let same : x ≡ y =
            eq_of_some (sym g ∙ ap (get_elem? a.array) (sym ((==_iff j iter).0 s)) ∙ q) in
          ap (λ z. is_negative (a.cmp_fun z item)) (sym same) ∙ h
      | inr d ↦ before j y (ground arith) q
    ]
