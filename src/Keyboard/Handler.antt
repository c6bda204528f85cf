-- ===== src/Keyboard/Handler.antt =====
-- `keyboard_handler` on the three kinds of scancode: a control key going down, a key going up, and
-- a plain key going down.
use os_implement.Prelude.{
  ℕ, ◌+◌, ◌<◌, ◌≡◌, ◌≢◌, inl, inr, refl, ap, ◌∙◌, bit_and, true, not, ◌&&◌, ◌||◌, none, some, [],
  ◌∷◌, ◌++◌, ltb, ◌==◌, if◌then◌else◌, arith, get_or, Bool-cases, Option-cases,
}
use os_implement.Prelude.Bits.{not32, all_below, all_below_sound}
use os_implement.Keyboard.{
  Keyboard, layout, set_controls, find_control, disable, invert, active_table, store_char,
  key_released, key_pressed, keyboard_handler, keyboard_getchar,
}
use os_implement.Keyboard.Layout.{Keymap, control_keys}
use os_implement.Keyboard.Control.{
  is_on, is_on-invert, is_on-disable, controls_range, active_table_lem, find_control-some,
  find_pressed, find_released, control_code, find_control-none,
}
use os_implement.Keyboard.Ring.{
  IsRing, pending, waiting, pending-store_char, store_char-IsRing, keyboard_getchar-IsRing,
}

pub record IsKeymap (m : Keymap) : Type 0 where
  pub keys : m.control_map ≡ control_keys
  pub range : m.controls < 256

pub record IsKeyboard (k : Keyboard) : Type 0 where
  pub ring : IsRing k
  pub us_map : IsKeymap k.us_map
  pub gb_map : IsKeymap k.gb_map

-- Nothing but the status of the current layout differs.
pub record SameBut (k k' : Keyboard) : Type 0 where
  pub name : k'.current_layout ≡ k.current_layout
  pub normal : (layout k').scancodes ≡ (layout k).scancodes
  pub shifted : (layout k').shift_scancodes ≡ (layout k).shift_scancodes
  pub keys : (layout k').control_map ≡ (layout k).control_map
  pub queue : pending k' ≡ pending k

layout-IsKeymap : (k : Keyboard) → IsKeyboard k → IsKeymap (layout k)
layout-IsKeymap k ok = ground (arith, ok.us_map, ok.gb_map)

set_controls-SameBut :
    (v : ℕ) (k : Keyboard)
    → SameBut k (set_controls v k) × ((layout (set_controls v k)).controls ≡ v)
unfolding set_controls
set_controls-SameBut v k = ground arith

set_controls-IsKeyboard :
    (v : ℕ) (k : Keyboard) → IsKeyboard k → v < 256 → IsKeyboard (set_controls v k)
unfolding set_controls
set_controls-IsKeyboard v k ok h = ground (arith, ok.ring, ok.us_map, ok.gb_map)

control_pressed :
    (i : ℕ) (k : Keyboard)
    → IsKeyboard k
    → i < 8
    → keyboard_handler (get_or control_keys i 0) k ≡ set_controls (invert i (layout k).controls) k
unfolding keyboard_handler key_pressed
control_pressed i k ok h =
    let m = layout-IsKeymap k ok in
    let found : find_control 8 0 (layout k).control_map (get_or control_keys i 0) ≡ some i =
      rw m.keys (find_pressed i h) in
    let down = (control_code i h).0 in ground (arith, found, down)

control_released :
    (i : ℕ) (k : Keyboard)
    → IsKeyboard k
    → i < 5
    → keyboard_handler (get_or control_keys i 0 + 0x80) k
      ≡ set_controls (disable i (layout k).controls) k
unfolding keyboard_handler key_released
control_released i k ok h =
    let m = layout-IsKeymap k ok in
    let (_, up, code) = control_code i (omega arith) in
    let found : find_control 5 0 (layout k).control_map
          (bit_and (get_or control_keys i 0 + 0x80) (not32 0x80))
        ≡ some i =
      rw (m.keys, code) (find_released i h) in
    ground (arith, found, up)

-- The codes of keys going down.
down_table : all_below 128 (λ c. bit_and c 0x80 == 0) ≡ true
unfolding all_below
down_table = refl

low_code : (c : ℕ) → c < 128 → (bit_and c 0x80 == 0) ≡ true
low_code c h = all_below_sound 128 (λ c. bit_and c 0x80 == 0) c down_table h

-- On a keyboard whose layouts have the control keys of the source and status bits below 2^8, with a ring
-- of 256 places: pressing control key i inverts its status bit in the current layout and no other, and
-- keeps the name of that layout, its tables and the characters that wait.
pub keyboard_handler_control :
    (i : ℕ) (k : Keyboard)
    → IsKeyboard k
    → i < 8
    → let k' = keyboard_handler (get_or control_keys i 0) k in
      SameBut k k'
      × ((j : ℕ)
          → j < 8
          → is_on (layout k').controls j
            ≡ (if j == i then not (is_on (layout k).controls i) else is_on (layout k).controls j))
keyboard_handler_control i k ok h =
    let m = layout-IsKeymap k ok in
    let (same, v) = set_controls-SameBut (invert i (layout k).controls) k in
    rw (control_pressed i k ok h)
      (same, λ j hj. rw v (is_on-invert (layout k).controls i j m.range h hj))

-- Releasing one of the first five control keys puts its status bit off and changes no other bit
-- and nothing else.
pub keyboard_handler_control_up :
    (i : ℕ) (k : Keyboard)
    → IsKeyboard k
    → i < 5
    → let k' = keyboard_handler (get_or control_keys i 0 + 0x80) k in
      SameBut k k'
      × ((j : ℕ)
          → j < 8
          → is_on (layout k').controls j ≡ (not (j == i) && is_on (layout k).controls j))
keyboard_handler_control_up i k ok h =
    let m = layout-IsKeymap k ok in
    let (same, v) = set_controls-SameBut (disable i (layout k).controls) k in
    rw (control_released i k ok h)
      (same, λ j hj. rw v (is_on-disable (layout k).controls i j m.range (omega arith) hj))

store_char-layouts :
    (c : ℕ) (k : Keyboard)
    → ((store_char c k).us_map ≡ k.us_map)
      × ((store_char c k).gb_map ≡ k.gb_map)
      × ((store_char c k).current_layout ≡ k.current_layout)
unfolding store_char
store_char-layouts c k = ground arith

-- The character that the tables have for a key.
abbrev pub char_of : ℕ → Keyboard → ℕ
char_of scancode k =
    let on = is_on (layout k).controls in
    get_or
      (if (on 3 || on 4 || on 5) && not (on 0)
        then (layout k).shift_scancodes
        else (layout k).scancodes)
      scancode 0

-- On a keyboard whose layouts have the control keys of the source and status bits below 2^8, with a ring
-- of 256 places, for a key that is not a control key, going down: while fewer than 255 characters wait, one goes
-- behind those that wait, the one that the shifted table has for the key if a shift key or caps lock is
-- on and control is off, and the one of the normal table otherwise. With 255 waiting it is dropped, or
-- all are lost if the ring starts at index 0. Both keymaps with their status, and their choice, are kept.
pub keyboard_handler_plain :
    (scancode : ℕ) (k : Keyboard)
    → IsKeyboard k
    → scancode < 128
    → ((i : ℕ) → i < 8 → get_or control_keys i 0 ≢ scancode)
    → let k' = keyboard_handler scancode k in
      (pending k' ≡ (
        if ltb (waiting k) 255
        then pending k ++ char_of scancode k ∷ []
        else if k.keyboard_buffer_start == 0
        then []
        else pending k))
      × (k'.us_map ≡ k.us_map)
      × (k'.gb_map ≡ k.gb_map)
      × (k'.current_layout ≡ k.current_layout)
unfolding keyboard_handler key_pressed
keyboard_handler_plain scancode k ok h plain =
    let c = char_of scancode k in
    let e : keyboard_handler scancode k ≡ store_char c k =
      plain_pressed
      ∙ ap (λ t. store_char (get_or t scancode 0) k) (active_table_lem (layout k) m.range) in
    let (us_map, gb_map, name) = store_char-layouts c k in
    (
      ap pending e ∙ pending-store_char c k ok.ring,
      ap (λ (x : Keyboard). x.us_map) e ∙ us_map,
      ap (λ (x : Keyboard). x.gb_map) e ∙ gb_map,
      ap (λ (x : Keyboard). x.current_layout) e ∙ name,
    )
  where
    m : IsKeymap (layout k)
    m = layout-IsKeymap k ok

    none_found : find_control 8 0 (layout k).control_map scancode ≡ none
    none_found = rw m.keys (find_control-none 8 0 control_keys scancode (λ j hj. plain j hj))

    plain_pressed :
        keyboard_handler scancode k ≡ store_char (get_or (active_table (layout k)) scancode 0) k
    plain_pressed = ground (arith, none_found, low_code scancode h)

store_char-IsKeyboard : (c : ℕ) (k : Keyboard) → IsKeyboard k → IsKeyboard (store_char c k)
store_char-IsKeyboard c k ok = record {
  ring = store_char-IsRing c k ok.ring;
  us_map = unfold store_char in ground (arith, ok.us_map);
  gb_map = unfold store_char in ground (arith, ok.gb_map);
}

key_released-IsKeyboard : (c : ℕ) (k : Keyboard) → IsKeyboard k → IsKeyboard (key_released c k)
unfolding key_released
key_released-IsKeyboard c k ok =
    let m = layout-IsKeymap k ok in
    elim (Option-cases (find_control 5 0 (layout k).control_map (bit_and c (not32 0x80)))) [
      | inl e ↦ rw (e, key_released) ok
      | inr (i, e) ↦
          rw (e, key_released)
            (set_controls-IsKeyboard (disable i (layout k).controls) k ok
              (controls_range (layout k).controls i m.range
                (omega (arith, (find_control-some 5 0 _ _ e).0))).1)
    ]

key_pressed-IsKeyboard : (c : ℕ) (k : Keyboard) → IsKeyboard k → IsKeyboard (key_pressed c k)
unfolding key_pressed
key_pressed-IsKeyboard c k ok =
    let m = layout-IsKeymap k ok in
    elim (Option-cases (find_control 8 0 (layout k).control_map c)) [
      | inl e ↦ rw (e, key_pressed) (store_char-IsKeyboard _ k ok)
      | inr (i, e) ↦
          rw (e, key_pressed)
            (set_controls-IsKeyboard (invert i (layout k).controls) k ok
              (controls_range (layout k).controls i m.range
                (omega (arith, (find_control-some 8 0 _ _ e).0))).0)
    ]

-- Every scancode keeps the keyboard's state well formed: both ends of the ring stay inside the
-- buffer, the status bits in a byte and the keymaps in place; `keyboard_getchar` keeps it too.
pub keyboard_handler-IsKeyboard :
    (scancode : ℕ) (k : Keyboard)
    → IsKeyboard k
    → IsKeyboard (keyboard_handler scancode k) × IsKeyboard (keyboard_getchar k).1
unfolding keyboard_handler
keyboard_handler-IsKeyboard scancode k ok = (handled, taken)
  where
    handled : IsKeyboard (keyboard_handler scancode k)
    handled = elim (Bool-cases (bit_and scancode 0x80 == 0)) [
      | inl e ↦ rw e (key_pressed-IsKeyboard scancode k ok)
      | inr e ↦ rw e (key_released-IsKeyboard scancode k ok)
    ]

    taken : IsKeyboard (keyboard_getchar k).1
    taken = record {
      ring = keyboard_getchar-IsRing k ok.ring;
      us_map = unfold keyboard_getchar in ground (arith, ok.us_map);
      gb_map = unfold keyboard_getchar in ground (arith, ok.gb_map);
    }
