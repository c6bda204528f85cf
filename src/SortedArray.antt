-- ===== src/SortedArray.antt =====
-- The array of pointers of src/sorted_array.c, in which the heap of src/kheap.c keeps its holes.
-- `array` has the words that were allocated for it; an access outside of it, and a panic, is `none`.
-- A comparison returns an `int` as its 32 bits.
pub mod Shift
pub mod Insert
pub mod Order
pub mod Remove
mod Tests
use os_implement.Prelude.{
  ℕ, zero, suc, ◌+◌, ◌-◌, ◌*◌, ◌/◌, ◌%◌, ◌^◌, Bool, Option, none, some, List, [], ◌∷◌, ◌==◌, ltb,
  leb, if◌then◌else◌, get_elem?, set, length, replicate, ◌>>=◌,
}

pub record SortedArray : Type 0 where
  pub array : List ℕ
  pub size : ℕ
  pub cur : ℕ
  pub cmp_fun : ℕ → ℕ → ℕ

-- cmp
abbrev pub cmp : ℕ → ℕ → ℕ
cmp a b = if ltb a b then 1 else 0

-- i < 0, on 32 bits
abbrev pub is_negative : ℕ → Bool
is_negative i = leb (2 ^ 31) i

-- memset of n bytes to 0, on words from the byte at 4 * i on: a word may lose its low bytes only.
unfoldable pub clear_bytes : ℕ → ℕ → List ℕ → List ℕ
clear_bytes n i [] = []
clear_bytes n i (word ∷ words) =
    (if leb (4 * i + 4) n
      then 0
      else if leb n (4 * i)
      then word
      else word / 2 ^ (8 * (n - 4 * i)) * 2 ^ (8 * (n - 4 * i)))
    ∷ clear_bytes n (i + 1) words

-- The words that `_malloc_s` returned are `raw`; as many bytes as there are words are cleared.
unfoldable pub create_sorted_array : List ℕ → (ℕ → ℕ → ℕ) → SortedArray
unfolding clear_bytes
create_sorted_array raw cmp_fun = record {
  array = clear_bytes (length raw) 0 raw;
  size = length raw;
  cur = 0;
  cmp_fun = cmp_fun;
}

unfoldable pub place_sorted_array : ℕ → (ℕ → ℕ → ℕ) → SortedArray
place_sorted_array maxsize cmp_fun = record {
  array = replicate maxsize 0;
  size = maxsize;
  cur = 0;
  cmp_fun = cmp_fun;
}

-- The first loop of `insert_sorted_array`, with the rounds left: the place of the item.
unfoldable pub find_place : ℕ → ℕ → SortedArray → ℕ → Option ℕ
find_place zero iter a item = some iter
find_place (suc rounds) iter a item =
    let rest = find_place rounds (iter + 1) a item in
    do x ← get_elem? a.array iter; if is_negative (a.cmp_fun x item) then rest else some iter

-- Its second loop: `while (iter <= a->cur)`, with the rounds left.
unfoldable pub shift_up : ℕ → ℕ → ℕ → List ℕ → Option (List ℕ)
shift_up zero iter temp array = some array
shift_up (suc rounds) iter temp array = do
  temp_2 ← get_elem? array (iter + 1)
  shift_up rounds (iter + 1) temp_2 (set array (iter + 1) temp)

unfoldable pub insert_sorted_array : ℕ → SortedArray → Option SortedArray
unfolding find_place shift_up
insert_sorted_array item a = do
  iter ← find_place a.cur 0 a item
  temp ← get_elem? a.array iter
  array ←
      if iter == a.cur
      then some (set a.array iter item)
      else shift_up (a.cur + 1 - iter) iter temp (set a.array iter item)
  some (record a { array = array; cur = a.cur + 1 })

unfoldable pub find_sorted_array : ℕ → SortedArray → Option ℕ
find_sorted_array index a = if leb a.size index then none else get_elem? a.array index

-- The loop of `remove_sorted_array`, with the rounds left.
unfoldable pub shift_down : ℕ → ℕ → List ℕ → Option (List ℕ)
shift_down zero iter array = some array
shift_down (suc rounds) iter array = do
  x ← get_elem? array iter
  shift_down rounds (iter + 1) (set array (iter - 1) x)

unfoldable pub remove_sorted_array : ℕ → SortedArray → Option SortedArray
unfolding shift_down
remove_sorted_array index a = if leb a.size index then some a else (do
  array ← shift_down (a.size - (index + 1)) (index + 1) a.array
  some (record a { array = array; size = a.size - 1 }))
