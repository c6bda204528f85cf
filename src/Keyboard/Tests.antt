-- ===== src/Keyboard/Tests.antt =====
-- The keyboard with the two layouts of the source.
use os_implement.Prelude.{
  ℕ, ◌<◌, ◌≡◌, ◌≢◌, refl, true, not, [], ◌∷◌, ◌++◌, ◌==◌, ltb, if◌then◌else◌, arith, replicate,
  length-replicate, get_or,
}
use os_implement.Prelude.Bits.{all_below, all_below_sound}
use os_implement.Keyboard.{Keyboard, layout, us, store_char, keyboard_getchar, keyboard_handler}
use os_implement.Keyboard.Layout
use os_implement.Keyboard.Layout.{control_keys}
use os_implement.Keyboard.Ring.{waiting, pending, pending-store_char}
use os_implement.Keyboard.Control.{is_on}
use os_implement.Keyboard.Handler.{
  char_of, IsKeyboard, SameBut, keyboard_handler_control, keyboard_handler_plain,
  keyboard_handler-IsKeyboard,
}

-- An empty ring, and one of 255 characters with its start at 0.
abbrev keyboard : ℕ → ℕ → Keyboard
keyboard start end = record {
  us_map = Layout.us;
  gb_map = Layout.gb;
  current_layout = us;
  keyboard_buffer_start = start;
  keyboard_buffer_end = end;
  keyboard_buffer = replicate 256 0x61;
}

keyboard-IsKeyboard : (start end : ℕ) → start < 256 → end < 256 → IsKeyboard (keyboard start end)
keyboard-IsKeyboard start end h k = record {
  ring = record { start = h; end = k; size = length-replicate {A = ℕ} 256 0x61 };
  us_map = record { keys = refl; range = omega arith };
  gb_map = record { keys = refl; range = omega arith };
}

abbrev idle : Keyboard
idle = keyboard 0 0

idle-IsKeyboard : IsKeyboard idle
idle-IsKeyboard = keyboard-IsKeyboard 0 0 (omega arith) (omega arith)

keyboard_handler-IsKeyboard_example :
    IsKeyboard (keyboard_handler 0x1e idle) × IsKeyboard (keyboard_getchar idle).1
keyboard_handler-IsKeyboard_example = keyboard_handler-IsKeyboard 0x1e idle idle-IsKeyboard

-- Key 0x1e is no control key.
plain_table : all_below 8 (λ i. not (get_or control_keys i 0 == 0x1e)) ≡ true
unfolding all_below
plain_table = refl

plain_key : (i : ℕ) → i < 8 → get_or control_keys i 0 ≢ 0x1e
plain_key i h =
    let e = all_below_sound 8 (λ i. not (get_or control_keys i 0 == 0x1e)) i plain_table h in
    ground (arith, e)

keyboard_handler_plain_example :
    let k' = keyboard_handler 0x1e idle in
    (pending k' ≡ (
      if ltb (waiting idle) 255
      then pending idle ++ char_of 0x1e idle ∷ []
      else if idle.keyboard_buffer_start == 0
      then []
      else pending idle))
    × (k'.us_map ≡ idle.us_map)
    × (k'.gb_map ≡ idle.gb_map)
    × (k'.current_layout ≡ idle.current_layout)
keyboard_handler_plain_example =
    keyboard_handler_plain 0x1e idle idle-IsKeyboard (omega arith) plain_key

store_char_example :
    let k = keyboard 0 255 in
    pending (store_char 0x62 k) ≡ (
      if ltb (waiting k) 255
      then pending k ++ 0x62 ∷ []
      else if k.keyboard_buffer_start == 0
      then []
      else pending k)
store_char_example =
    pending-store_char 0x62 (keyboard 0 255)
      (keyboard-IsKeyboard 0 255 (omega arith) (omega arith)).ring

-- The left shift key.
keyboard_handler_control_example :
    let k' = keyboard_handler (get_or control_keys 3 0) idle in
    SameBut idle k'
    × ((j : ℕ)
        → j < 8
        → is_on (layout k').controls j ≡ (
            if j == 3
            then not (is_on (layout idle).controls 3)
            else is_on (layout idle).controls j))
keyboard_handler_control_example = keyboard_handler_control 3 idle idle-IsKeyboard (omega arith)
