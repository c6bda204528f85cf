-- ===== src/Monitor/Write.antt =====
-- Text on the screen: a printable byte, and a whole line by `monitor_write`.
use os_implement.Prelude.{
  ℕ, zero, suc, ◌+◌, ◌-◌, ◌*◌, ◌%◌, ◌^◌, ◌≤◌, ◌<◌, ◌≡◌, refl, ap, ◌∙◌, bit_or, false, ◌&&◌, List,
  [], ◌∷◌, ◌==◌, ltb, leb, if◌then◌else◌, arith, length, get_or, set, length-set, get_or-set, All,
}
use os_implement.Monitor.{
  Screen, position, attribute_byte, blank, move_cursor, put_char, wrap_line, monitor_put,
  monitor_write,
}
use os_implement.Monitor.Scroll.{scroll-rows, scroll_inside}
use os_implement.Monitor.Put.{IsScreen, cell_value, monitor_put-IsScreen}

abbrev pub IsPrintable : ℕ → Type 0
IsPrintable c = (0x20 ≤ c) × (c < 0x80)

-- The screen after the ladder has taken a printable byte.
abbrev typed : ℕ → Screen → Screen
typed c s = record s { video = set s.video (position s) (0x0f00 + c); cursor_x = s.cursor_x + 1 }

put_char_printable : (c : ℕ) (s : Screen) → IsScreen s → IsPrintable c → put_char c s ≡ typed c s
unfolding put_char
put_char_printable c s ok p =
    let v : bit_or c (attribute_byte * 2 ^ 8) ≡ 0x0f00 + c = cell_value c p.1 in
    let w : (s.cursor_x + 1) % 2 ^ 8 ≡ s.cursor_x + 1 = omega (arith, ok.column) in
    ground (arith, v, w, p)

-- Going to the next row keeps the cursor's cell number.
record Wrapped (t u : Screen) : Type 0 where
  cell : position u ≡ position t
  column : u.cursor_x < 80
  video : u.video ≡ t.video

wrap_line-Wrapped : (t : Screen) → t.cursor_x ≤ 80 → t.cursor_y < 25 → Wrapped t (wrap_line t)
unfolding wrap_line
wrap_line-Wrapped t h k = ground arith

typed-Wrapped : (c : ℕ) (s : Screen) → IsScreen s → Wrapped (typed c s) (wrap_line (typed c s))
typed-Wrapped c s ok = wrap_line-Wrapped (typed c s) (omega (arith, ok.column)) ok.row

-- A printable byte anywhere but in the last cell of the screen goes to the cursor's cell, in white
-- on black, the cursor moves one cell on, and no other cell changes.
pub monitor_put_printable :
    (c : ℕ) (s : Screen)
    → IsScreen s
    → IsPrintable c
    → position s < 1999
    → (position (monitor_put c s) ≡ position s + 1)
      × ((j : ℕ)
          → get_or (monitor_put c s).video j 0
            ≡ (if j == position s then 0x0f00 + c else get_or s.video j 0))
unfolding monitor_put move_cursor
monitor_put_printable c s ok p h =
    let w = typed-Wrapped c s ok in
    rw
      (
        put_char_printable c s ok p,
        scroll_inside (wrap_line (typed c s)) (omega (arith, w.cell, w.column)),
      )
      (
        omega (arith, w.cell),
        λ j.
            ap (λ v. get_or v j 0) w.video
            ∙ get_or-set s.video (position s) j (0x0f00 + c) 0 (omega (arith, ok.cells)),
      )

-- A printable byte in the last cell of the screen scrolls it: the row above the last one shows what
-- the last row held, with the byte at its end, and the cursor starts a blank last row.
pub monitor_put_last_cell :
    (c : ℕ) (s : Screen)
    → IsScreen s
    → IsPrintable c
    → position s ≡ 1999
    → (position (monitor_put c s) ≡ 1920)
      × ((j : ℕ)
          → j < 1920
          → get_or (monitor_put c s).video j 0
            ≡ (if j == 1919 then 0x0f00 + c else get_or s.video (j + 80) 0))
      × ((j : ℕ) → 1920 ≤ j → j < 2000 → get_or (monitor_put c s).video j 0 ≡ blank)
unfolding monitor_put move_cursor
monitor_put_last_cell c s ok p h =
    let t = wrap_line (typed c s) in
    let w = typed-Wrapped c s ok in
    let size : length t.video ≡ 2000 =
      omega (arith, ap length w.video, length-set s.video (position s) (0x0f00 + c), ok.cells) in
    let (_, row, column, up, low) = scroll-rows t size (omega (arith, w.cell, w.column)) in
    rw (put_char_printable c s ok p) (
      omega (arith, w.cell, w.column, row, column),
      λ j k.
          up j k
          ∙ ap (λ v. get_or v (j + 80) 0) w.video
          ∙ get_or-set s.video (position s) (j + 80) (0x0f00 + c) 0 (omega (arith, ok.cells))
          ∙ ground arith,
      low,
    )

get_or-cons :
    (c : ℕ) (cs : List ℕ) (k : ℕ)
    → get_or (c ∷ cs) k 0 ≡ (if k == 0 then c else get_or cs (k - 1) 0)
get_or-cons c cs zero = refl
get_or-cons c cs (suc k) = ground (arith, ap (λ n. get_or cs n 0) (suc-sub-one k))
  where
    suc-sub-one : (k : ℕ) → suc k - 1 ≡ k
    suc-sub-one k = omega arith

-- What a cell shows after the first byte and the rest, in one description for the whole text.
shift_text :
    (c j p q old new : ℕ) (cs : List ℕ)
    → q ≡ p + 1
    → new ≡ (if j == p then 0x0f00 + c else old)
    → (if leb q j && ltb j (q + length cs) then 0x0f00 + get_or cs (j - q) 0 else new)
      ≡ (if leb p j && ltb j (p + suc (length cs)) then 0x0f00 + get_or (c ∷ cs) (j - p) 0 else old)
shift_text c j p q old new cs e n =
    let k : j - q ≡ j - p - 1 = omega arith in
    ground (arith, get_or-cons c cs (j - p), ap (λ n. get_or cs n 0) k)

-- A text of printable bytes that fits before the last cell appears from the cursor's cell on, byte
-- for byte, the cursor stands behind it, and all other cells are as they were.
pub monitor_write_text :
    (text : List ℕ) (s : Screen)
    → IsScreen s
    → All IsPrintable text
    → position s + length text < 2000
    → IsScreen (monitor_write text s)
      × (position (monitor_write text s) ≡ position s + length text)
      × ((j : ℕ)
          → get_or (monitor_write text s).video j 0 ≡ (
              if leb (position s) j && ltb j (position s + length text)
              then 0x0f00 + get_or text (j - position s) 0
              else get_or s.video j 0))
unfolding monitor_write
monitor_write_text [] s ok p h = (ok, omega arith, λ j. ground arith)
monitor_write_text (c ∷ cs) s ok p h =
    let s' = monitor_put c s in
    let (moved, cells) = monitor_put_printable c s ok p.0 (omega arith) in
    let (ok', at, rest) =
      monitor_write_text cs s' (monitor_put-IsScreen c s ok) p.1 (omega arith) in
    let printed : (c == 0) ≡ false = ground (arith, p.0) in
    rw printed (
      ok',
      omega arith,
      λ j. rest j ∙ shift_text c j (position s) (position s') _ _ cs moved (cells j),
    )
