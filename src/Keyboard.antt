-- ===== src/Keyboard.antt =====
-- The keyboard driver of src/keyboard.c: the control keys of the current layout, and the ring of
-- 256 characters between the interrupt handler and `keyboard_getchar`.
pub mod Layout
pub mod Handler
pub mod Control
pub mod Ring
mod Tests
use os_implement.Prelude.{
  ℕ, zero, suc, ◌+◌, ◌-◌, ◌*◌, ◌/◌, ◌%◌, ◌^◌, bit_and, bit_or, Bool, true, false, not, ◌&&◌, Option,
  none, some, List, [], ◌∷◌, ◌==◌, if◌then◌else◌, get_or, set,
}
use os_implement.Prelude.Bits.{not32}
use Layout.{Keymap}

-- The bits of `controls`.
abbrev pub control : ℕ
control = 0x1

abbrev pub lshift : ℕ
lshift = 0x8

abbrev pub rshift : ℕ
rshift = 0x10

abbrev pub capslock : ℕ
capslock = 0x20

abbrev pub released_mask : ℕ
released_mask = 0x80

-- Which of the two keymaps `current_layout` points to.
pub data LayoutName : Type 0 where
  us gb : LayoutName

-- The global variables of keyboard.c.
pub record Keyboard : Type 0 where
  pub us_map : Keymap
  pub gb_map : Keymap
  pub current_layout : LayoutName
  pub keyboard_buffer_start : ℕ
  pub keyboard_buffer_end : ℕ
  pub keyboard_buffer : List ℕ

-- *current_layout, and a write to its `controls`.
abbrev pub layout : Keyboard → Keymap
layout k = elim k.current_layout [ us ↦ k.us_map | gb ↦ k.gb_map ]

unfoldable pub set_controls : ℕ → Keyboard → Keyboard
set_controls v k = elim k.current_layout [
  | us ↦ record k { us_map = record k.us_map { controls = v } }
  | gb ↦ record k { gb_map = record k.gb_map { controls = v } }
]

unfoldable pub switch_layout : LayoutName → Keyboard → Keyboard
switch_layout name k = record k { current_layout = name }

-- `init_keyboard_driver`, less the registration of the handler.
unfoldable pub init_keyboard_driver : Keyboard → Keyboard
init_keyboard_driver k = record (switch_layout gb k) {
  keyboard_buffer_start = 0;
  keyboard_buffer_end = 0;
}

unfoldable pub keyboard_getchar : Keyboard → ℕ × Keyboard
keyboard_getchar k =
    if not (k.keyboard_buffer_start == k.keyboard_buffer_end)
    then (
      get_or k.keyboard_buffer k.keyboard_buffer_start 0,
      record k { keyboard_buffer_start = bit_and (k.keyboard_buffer_start + 1) 255 },
    )
    else (0, k)

-- The loops `for (i = 0; i < n; i++) if (control_map[i] == code)`, with the rounds left.
unfoldable pub find_control : ℕ → ℕ → List ℕ → ℕ → Option ℕ
find_control zero i control_map code = none
find_control (suc rounds) i control_map code =
    let rest = find_control rounds (i + 1) control_map code in
    if get_or control_map i 0 == code then some i else rest

-- controls & ~(1 << i), and controls with bit i inverted.
unfoldable pub disable : ℕ → ℕ → ℕ
disable i controls = bit_and controls (not32 (2 ^ i)) % 2 ^ 8

unfoldable pub invert : ℕ → ℕ → ℕ
unfolding disable
invert i controls =
    if not (bit_and controls (2 ^ i) == 0)
    then disable i controls
    else bit_or controls (2 ^ i) % 2 ^ 8

-- The table that a plain key is looked up in.
unfoldable pub active_table : Keymap → List ℕ
active_table m =
    if not (bit_and m.controls (bit_or (bit_or lshift rshift) capslock) == 0)
      && (bit_and m.controls control == 0)
    then m.shift_scancodes
    else m.scancodes

-- The end of the handler: a character goes into the ring, if the test lets it.
unfoldable pub store_char : ℕ → Keyboard → Keyboard
store_char c k =
    if not (k.keyboard_buffer_end == (k.keyboard_buffer_start + 2 ^ 32 - 1) % 2 ^ 32)
    then record k {
      keyboard_buffer = set k.keyboard_buffer k.keyboard_buffer_end c;
      keyboard_buffer_end = bit_and (k.keyboard_buffer_end + 1) 255;
    }
    else k

unfoldable pub key_released : ℕ → Keyboard → Keyboard
key_released scancode k =
    elim (find_control 5 0 (layout k).control_map (bit_and scancode (not32 released_mask))) [
      | none ↦ k
      | some i ↦ set_controls (disable i (layout k).controls) k
    ]

unfoldable pub key_pressed : ℕ → Keyboard → Keyboard
key_pressed scancode k = elim (find_control 8 0 (layout k).control_map scancode) [
  | none ↦ store_char (get_or (active_table (layout k)) scancode 0) k
  | some i ↦ set_controls (invert i (layout k).controls) k
]

-- `keyboard_handler`, with the byte that it reads from port 0x60.
unfoldable pub keyboard_handler : ℕ → Keyboard → Keyboard
keyboard_handler scancode k =
    if not (bit_and scancode released_mask == 0)
    then key_released scancode k
    else key_pressed scancode k
