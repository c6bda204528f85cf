-- ===== src/Monitor/Scroll.antt =====
-- The loops over the cells of the screen, cell by cell.
use os_implement.Prelude.{
  ℕ, zero, suc, ◌+◌, ◌≤◌, ◌<◌, ◌≡◌, refl, ◌&&◌, List, ltb, leb, if◌then◌else◌, arith, length,
  get_or, set, length-set, get_or-set,
}
use os_implement.Monitor.{Screen, blank, copy_up, fill, clear_from, scroll}

pub length-copy_up : (n i : ℕ) (v : List ℕ) → length (copy_up n i v) ≡ length v
unfolding copy_up
length-copy_up zero i v = refl
length-copy_up (suc n) i v = omega (
  arith,
  length-copy_up n (i + 1) (set v i (get_or v (i + 80) 0)),
  length-set v i (get_or v (i + 80) 0),
)

pub length-fill : (n i : ℕ) (v : List ℕ) → length (fill n i v) ≡ length v
unfolding fill
length-fill zero i v = refl
length-fill (suc n) i v = omega (arith, length-fill n (i + 1) (set v i blank), length-set v i blank)

pub get_or-copy_up :
    (n i j : ℕ) (v : List ℕ)
    → i + n + 80 ≤ length v
    → get_or (copy_up n i v) j 0
      ≡ (if leb i j && ltb j (i + n) then get_or v (j + 80) 0 else get_or v j 0)
unfolding copy_up
get_or-copy_up zero i j v h = ground arith
get_or-copy_up (suc n) i j v h =
    let x = get_or v (i + 80) 0 in
    ground (
      arith,
      get_or-copy_up n (i + 1) j (set v i x) (omega (arith, length-set v i x)),
      get_or-set v i j x 0,
      get_or-set v i (j + 80) x 0,
    )

pub get_or-fill :
    (n i j : ℕ) (v : List ℕ)
    → i + n ≤ length v
    → get_or (fill n i v) j 0 ≡ (if leb i j && ltb j (i + n) then blank else get_or v j 0)
unfolding fill
get_or-fill zero i j v h = ground arith
get_or-fill (suc n) i j v h = ground (
  arith,
  get_or-fill n (i + 1) j (set v i blank) (omega (arith, length-set v i blank)),
  get_or-set v i j blank 0,
)

-- What `scroll` shows once the cursor has left the last row: every row holds what the row below
-- it held, the last row is blank, and the cursor stands in the last row.
pub scroll-rows :
    (s : Screen)
    → length s.video ≡ 2000
    → 25 ≤ s.cursor_y
    → (length (scroll s).video ≡ 2000)
      × ((scroll s).cursor_y ≡ 24)
      × ((scroll s).cursor_x ≡ s.cursor_x)
      × ((j : ℕ) → j < 1920 → get_or (scroll s).video j 0 ≡ get_or s.video (j + 80) 0)
      × ((j : ℕ) → 1920 ≤ j → j < 2000 → get_or (scroll s).video j 0 ≡ blank)
unfolding scroll
scroll-rows s size below =
    let up = copy_up 1920 0 s.video in
    let n = length-copy_up 1920 0 s.video in
    let out = fill 80 1920 up in
    let e : (scroll s) ≡ record s { video = out; cursor_y = 24 } = ground arith in
    rw e (
      omega (arith, n, length-fill 80 1920 up),
      refl,
      refl,
      λ j h. ground (
        arith,
        get_or-fill 80 1920 j up (omega arith),
        get_or-copy_up 1920 0 j s.video (omega arith),
      ),
      λ j h k. ground (arith, get_or-fill 80 1920 j up (omega arith)),
    )

-- `scroll` does nothing while the cursor is in a row of the screen.
pub scroll_inside : (s : Screen) → s.cursor_y < 25 → scroll s ≡ s
unfolding scroll
scroll_inside s h = ground arith

pub length-clear_from : (n i : ℕ) (v : List ℕ) → length (clear_from n i v) ≡ length v
unfolding clear_from
length-clear_from zero i v = refl
length-clear_from (suc n) i v =
    omega (arith, length-clear_from n (i + 1) (set v i 0x0020), length-set v i 0x0020)

pub get_or-clear_from :
    (n i j : ℕ) (v : List ℕ)
    → i + n ≤ length v
    → get_or (clear_from n i v) j 0 ≡ (if leb i j && ltb j (i + n) then 0x0020 else get_or v j 0)
unfolding clear_from
get_or-clear_from zero i j v h = ground arith
get_or-clear_from (suc n) i j v h = ground (
  arith,
  get_or-clear_from n (i + 1) j (set v i 0x0020) (omega (arith, length-set v i 0x0020)),
  get_or-set v i j 0x0020 0,
)
