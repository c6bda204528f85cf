-- ===== src/Monitor/Put.antt =====
-- `monitor_put`: the cursor stays on the screen, and what each kind of byte does.
use os_implement.Prelude.{
  ℕ, ◌+◌, ◌*◌, ◌/◌, ◌%◌, ◌^◌, ◌≤◌, ◌<◌, ◌≡◌, inl, inr, refl, ap, ◌∙◌, bit_and, bit_or, true, [],
  ◌∷◌, ◌++◌, ◌==◌, leb, arith, length, length-set, ==_iff, Bool-cases,
}
use os_implement.Prelude.Bits.{not32, all_below, all_below_sound}
use os_implement.Monitor.{
  Screen, position, attribute_byte, scroll, move_cursor, put_char, wrap_line, monitor_put,
}
use os_implement.Monitor.Scroll.{scroll-rows, scroll_inside}

pub record IsScreen (s : Screen) : Type 0 where
  pub column : s.cursor_x < 80
  pub row : s.cursor_y < 25
  pub cells : length s.video ≡ 2000

-- (x + 4) & ~3 is the next multiple of four.
tab_table : all_below 80 (λ x. bit_and (x + 4) (not32 3) % 2 ^ 8 == (x + 4) / 4 * 4) ≡ true
unfolding all_below
tab_table = refl

tab_stop : (x : ℕ) → x < 80 → bit_and (x + 4) (not32 3) % 2 ^ 8 ≡ (x + 4) / 4 * 4
tab_stop x h =
    (==_iff _ _).0
      (all_below_sound 80 (λ x. bit_and (x + 4) (not32 3) % 2 ^ 8 == (x + 4) / 4 * 4) x tab_table h)

-- c | attribute puts the attribute above the seven bits of c.
cell_table : all_below 128 (λ c. bit_or c 0x0f00 == 0x0f00 + c) ≡ true
unfolding all_below
cell_table = refl

pub cell_value : (c : ℕ) → c < 128 → bit_or c 0x0f00 ≡ 0x0f00 + c
cell_value c h =
    (==_iff _ _).0 (all_below_sound 128 (λ c. bit_or c 0x0f00 == 0x0f00 + c) c cell_table h)

-- Between the ladder and the end of `monitor_put` the cursor may stand one past a row's end or
-- one row below the screen, not both.
record IsNear (s : Screen) : Type 0 where
  column : s.cursor_x ≤ 80
  row : s.cursor_y ≤ 25
  corner : s.cursor_y ≡ 25 → s.cursor_x ≡ 0
  cells : length s.video ≡ 2000

put_char-IsNear : (c : ℕ) (s : Screen) → IsScreen s → IsNear (put_char c s)
unfolding put_char
put_char-IsNear c s ok = ground (
  arith,
  tab_stop s.cursor_x ok.column,
  length-set s.video (position s) (bit_or c (attribute_byte * 2 ^ 8)),
)

record IsBelow (s : Screen) : Type 0 where
  column : s.cursor_x < 80
  row : s.cursor_y ≤ 25
  cells : length s.video ≡ 2000

wrap_line-IsBelow : (s : Screen) → IsNear s → IsBelow (wrap_line s)
unfolding wrap_line
wrap_line-IsBelow s near = ground arith

scroll-IsScreen : (s : Screen) → IsBelow s → IsScreen (scroll s)
scroll-IsScreen s below = elim (Bool-cases (leb 25 s.cursor_y)) [
  | inl h ↦
      let (size, row, column, _, _) = scroll-rows s below.cells (ground arith) in
      record { column = omega (arith, below.column); row = omega arith; cells = size }
  | inr h ↦
      rw (scroll_inside s (ground arith))
        (record { column = below.column; row = ground arith; cells = below.cells })
]

-- Every byte keeps the cursor inside the 25 rows of 80 columns, so that no write is outside of
-- the video memory.
pub monitor_put-IsScreen : (c : ℕ) (s : Screen) → IsScreen s → IsScreen (monitor_put c s)
unfolding monitor_put move_cursor
monitor_put-IsScreen c s ok =
    let r = scroll-IsScreen _ (wrap_line-IsBelow _ (put_char-IsNear c s ok)) in
    record { column = r.column; row = r.row; cells = r.cells }

-- Only `move_cursor` sends bytes to the ports.
ports_kept : (c : ℕ) (s : Screen) → (scroll (wrap_line (put_char c s))).ports ≡ s.ports
ports_kept c s = scroll_ports (wrap_line (put_char c s)) ∙ wrap_ports (put_char c s) ∙ put_ports
  where
    put_ports : (put_char c s).ports ≡ s.ports
    put_ports = unfold put_char in ground arith

    wrap_ports : (t : Screen) → (wrap_line t).ports ≡ t.ports
    wrap_ports t = unfold wrap_line in ground arith

    scroll_ports : (t : Screen) → (scroll t).ports ≡ t.ports
    scroll_ports t = unfold scroll in ground arith

-- `monitor_put` ends by sending the high byte and the low byte of the cursor's cell number to
-- registers 14 and 15 of the VGA board, and sends nothing else.
pub monitor_put-ports :
    (c : ℕ) (s : Screen)
    → IsScreen s
    → (hi lo : ℕ) × ((monitor_put c s).ports
        ≡ s.ports ++ ((0x3d4, 14) ∷ (0x3d5, hi) ∷ (0x3d4, 15) ∷ (0x3d5, lo) ∷ []))
      × (hi * 256 + lo ≡ position (monitor_put c s))
      × (hi < 256)
      × (lo < 256)
unfolding monitor_put move_cursor
monitor_put-ports c s ok =
    let r = scroll-IsScreen _ (wrap_line-IsBelow _ (put_char-IsNear c s ok)) in
    let t = scroll (wrap_line (put_char c s)) in
    (
      position t % 2 ^ 16 / 2 ^ 8,
      position t % 2 ^ 16 % 2 ^ 8,
      ap
          (λ p.
            p
            ++ ((0x3d4, 14)
                ∷ (0x3d5, position t % 2 ^ 16 / 2 ^ 8)
                ∷ (0x3d4, 15)
                ∷ (0x3d5, position t % 2 ^ 16 % 2 ^ 8)
                ∷ []))
          (ports_kept c s),
      omega (arith, r.column, r.row),
      omega arith,
      omega arith,
    )
