-- ===== src/SortedArray/Tests.antt =====
-- Arrays of four words.
use os_implement.Prelude.{
  ℕ, ◌+◌, ◌-◌, ◌≡◌, refl, false, ◌||◌, some, [], ◌∷◌, ltb, leb, if◌then◌else◌, arith, length, take,
}
use os_implement.SortedArray.{
  SortedArray, cmp, is_negative, find_place, shift_up, clear_bytes, create_sorted_array,
  insert_sorted_array, find_sorted_array, remove_sorted_array,
}
use os_implement.SortedArray.Order.{insert_sorted_array-take}
use os_implement.SortedArray.Remove.{find-remove}

-- 7 holds the low half of the second word: six bytes are cleared.
create_run :
    (create_sorted_array (5 ∷ 0x70007 ∷ 9 ∷ 8 ∷ 6 ∷ 4 ∷ []) cmp).array
    ≡ 0 ∷ 0x70000 ∷ 9 ∷ 8 ∷ 6 ∷ 4 ∷ []
unfolding create_sorted_array clear_bytes
create_run = refl

abbrev by_value : ℕ → ℕ → ℕ
by_value a b = if ltb a b then 0xffff_ffff else 1

abbrev two_items : (ℕ → ℕ → ℕ) → SortedArray
two_items cmp_fun = record { array = 10 ∷ 30 ∷ 0 ∷ 0 ∷ []; size = 4; cur = 2; cmp_fun = cmp_fun }

insert_run :
    insert_sorted_array 20 (two_items by_value)
    ≡ some (record { array = 10 ∷ 20 ∷ 30 ∷ 0 ∷ []; size = 4; cur = 3; cmp_fun = by_value })
unfolding insert_sorted_array find_place shift_up
insert_run = refl

insert_stack_run :
    insert_sorted_array 20 (two_items cmp)
    ≡ some (record { array = 20 ∷ 10 ∷ 30 ∷ 0 ∷ []; size = 4; cur = 3; cmp_fun = cmp })
unfolding insert_sorted_array find_place shift_up
insert_stack_run = refl

cmp_never : (x y : ℕ) → is_negative (cmp x y) ≡ false
cmp_never x y = ground arith

insert_take_example :
    (a' : SortedArray) × (insert_sorted_array 20 (two_items cmp) ≡ some a')
    × (a'.cur ≡ 2 + 1)
    × (a'.size ≡ 4)
    × (length a'.array ≡ 4)
    × (take a'.cur a'.array ≡ 20 ∷ take 2 (10 ∷ 30 ∷ 0 ∷ 0 ∷ []))
insert_take_example = insert_sorted_array-take 20 (two_items cmp) cmp_never (omega arith)

find_remove_example :
    (a' : SortedArray) × (remove_sorted_array 0 (two_items cmp) ≡ some a')
    × (a'.size ≡ (if ltb 0 4 then 4 - 1 else 4))
    × (a'.cur ≡ 2)
    × (length a'.array ≡ 4)
    × ((j : ℕ)
        → find_sorted_array j a'
          ≡ find_sorted_array (if ltb j 0 || leb 4 0 then j else j + 1) (two_items cmp))
find_remove_example = find-remove 0 (two_items cmp) (omega arith)
