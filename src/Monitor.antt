-- ===== src/Monitor.antt =====
-- The text screen of src/monitor.c: 25 rows of 80 cells, the cursor, and the bytes sent to the
-- ports of the VGA board, oldest first. `video` is the part of the memory at 0xb8000 that is shown.
pub mod Scroll
pub mod Put
pub mod Write
mod Tests
use os_implement.Prelude.{
  ℕ, zero, suc, ◌+◌, ◌-◌, ◌*◌, ◌/◌, ◌%◌, ◌^◌, bit_and, bit_or, Bool, true, false, not, ◌&&◌, ◌||◌,
  List, [], ◌∷◌, ◌++◌, ◌==◌, ltb, leb, if◌then◌else◌, get_or, set,
}
use os_implement.Prelude.Bits.{not32}

pub record Screen : Type 0 where
  pub cursor_x : ℕ
  pub cursor_y : ℕ
  pub video : List ℕ
  pub ports : List (ℕ × ℕ)

abbrev pub monitor_width : ℕ
monitor_width = 80

-- MONITOR_HEIGTH, as the source spells it
abbrev pub monitor_heigth : ℕ
monitor_heigth = 25

-- attributeByte, white on black, and the blank cell of `scroll`
abbrev pub attribute_byte : ℕ
attribute_byte = bit_or (0 * 2 ^ 4 % 2 ^ 8) (bit_and 15 0x0f)

abbrev pub blank : ℕ
blank = bit_or 0x20 (attribute_byte * 2 ^ 8)

-- cursor_y * MONITOR_WIDTH + cursor_x
abbrev pub position : Screen → ℕ
position s = s.cursor_y * monitor_width + s.cursor_x

unfoldable pub move_cursor : Screen → Screen
move_cursor s =
    let cursor_location = position s % 2 ^ 16 in
    record s {
      ports =
          s.ports
          ++ ((0x3d4, 14)
              ∷ (0x3d5, cursor_location / 2 ^ 8)
              ∷ (0x3d4, 15)
              ∷ (0x3d5, cursor_location % 2 ^ 8)
              ∷ []);
    }

-- The two loops of `scroll`, with the rounds left.
unfoldable pub copy_up : ℕ → ℕ → List ℕ → List ℕ
copy_up zero i video = video
copy_up (suc rounds) i video =
    copy_up rounds (i + 1) (set video i (get_or video (i + monitor_width) 0))

unfoldable pub fill : ℕ → ℕ → List ℕ → List ℕ
fill zero i video = video
fill (suc rounds) i video = fill rounds (i + 1) (set video i blank)

unfoldable pub scroll : Screen → Screen
scroll s =
    if leb monitor_heigth s.cursor_y
    then (record s {
      video =
          fill monitor_width ((monitor_heigth - 1) * monitor_width)
            (copy_up ((monitor_heigth - 1) * monitor_width) 0 s.video);
      cursor_y = monitor_heigth - 1;
    })
    else s

-- The `if` ladder of `monitor_put`. A `char` is signed, so from 0x80 on it is below ' '.
unfoldable pub put_char : ℕ → Screen → Screen
put_char c s =
    if c == 0x08 && not (s.cursor_x == 0)
    then record s { cursor_x = s.cursor_x - 1 }
    else if c == 0x09
    then record s { cursor_x = bit_and (s.cursor_x + 4) (not32 3) % 2 ^ 8 }
    else if c == 0x0d
    then record s { cursor_x = 0 }
    else if c == 0x0a
    then record s { cursor_y = (s.cursor_y + 1) % 2 ^ 8; cursor_x = 0 }
    else if leb 0x20 c && ltb c 0x80
    then record s {
      video = set s.video (position s) (bit_or c (attribute_byte * 2 ^ 8));
      cursor_x = (s.cursor_x + 1) % 2 ^ 8;
    }
    else s

unfoldable pub wrap_line : Screen → Screen
wrap_line s =
    if leb monitor_width s.cursor_x
    then record s { cursor_y = (s.cursor_y + 1) % 2 ^ 8; cursor_x = 0 }
    else s

unfoldable pub monitor_put : ℕ → Screen → Screen
monitor_put c s = move_cursor (scroll (wrap_line (put_char c s)))

-- The bytes of a C string, up to its NUL.
unfoldable pub monitor_write : List ℕ → Screen → Screen
monitor_write [] s = s
monitor_write (c ∷ cs) s =
    let rest = monitor_write cs (monitor_put c s) in if c == 0 then s else rest

unfoldable pub clear_from : ℕ → ℕ → List ℕ → List ℕ
clear_from zero i video = video
clear_from (suc rounds) i video = clear_from rounds (i + 1) (set video i 0x0020)

unfoldable pub monitor_clear : Screen → Screen
monitor_clear s = move_cursor (record s {
  video = clear_from (monitor_width * monitor_heigth) 0 s.video;
  cursor_x = 0;
  cursor_y = 0;
})
