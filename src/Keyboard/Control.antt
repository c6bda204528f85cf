-- ===== src/Keyboard/Control.antt =====
-- The status bits of the control keys, and the search for a key in `control_map`.
use os_implement.Prelude.{
  ℕ, zero, suc, ◌+◌, ◌^◌, ◌<◌, ◌≡◌, ◌≢◌, inl, inr, refl, ap, bit_and, bit_or, Bool, true, false,
  not, ◌&&◌, ◌||◌, none, some, List, ◌==◌, ltb, if◌then◌else◌, arith, get_or, ==_ne, Bool-cases,
}
use os_implement.Prelude.Bits.{
  not32, all_below, all_below_sound, all_below2_sound, all_below3_sound, iffb, iffb→eq,
}
use os_implement.Keyboard.{
  find_control, disable, invert, active_table, lshift, rshift, capslock, control,
}
use os_implement.Keyboard.Layout.{Keymap, control_keys}

-- Is the function of control key i on?
abbrev pub is_on : ℕ → ℕ → Bool
is_on controls i = not (bit_and controls (2 ^ i) == 0)

invert_row : ℕ → ℕ → ℕ → Bool
invert_row c i j = iffb (is_on (invert i c) j) (if j == i then not (is_on c i) else is_on c j)

disable_row : ℕ → ℕ → ℕ → Bool
disable_row c i j = iffb (is_on (disable i c) j) (not (j == i) && is_on c j)

range_row : ℕ → ℕ → Bool
range_row c i = ltb (invert i c) 256 && ltb (disable i c) 256

shifted_row : ℕ → Bool
shifted_row c =
    iffb (not (bit_and c (bit_or (bit_or lshift rshift) capslock) == 0) && (bit_and c control == 0))
      ((is_on c 3 || is_on c 4 || is_on c 5) && not (is_on c 0))

invert_table : all_below 256 (λ c. all_below 8 (λ i. all_below 8 (invert_row c i))) ≡ true
unfolding all_below invert_row invert
invert_table = refl

disable_table : all_below 256 (λ c. all_below 8 (λ i. all_below 8 (disable_row c i))) ≡ true
unfolding all_below disable_row disable
disable_table = refl

range_table : all_below 256 (λ c. all_below 8 (range_row c)) ≡ true
unfolding all_below range_row invert
range_table = refl

shifted_table : all_below 256 shifted_row ≡ true
unfolding all_below shifted_row
shifted_table = refl

pub is_on-invert :
    (c i j : ℕ)
    → c < 256
    → i < 8
    → j < 8
    → is_on (invert i c) j ≡ (if j == i then not (is_on c i) else is_on c j)
unfolding invert_row
is_on-invert c i j hc hi hj =
    iffb→eq _ _ (all_below3_sound 256 8 8 invert_row c i j invert_table hc hi hj)

pub is_on-disable :
    (c i j : ℕ) → c < 256 → i < 8 → j < 8 → is_on (disable i c) j ≡ (not (j == i) && is_on c j)
unfolding disable_row
is_on-disable c i j hc hi hj =
    iffb→eq _ _ (all_below3_sound 256 8 8 disable_row c i j disable_table hc hi hj)

pub controls_range : (c i : ℕ) → c < 256 → i < 8 → (invert i c < 256) × (disable i c < 256)
unfolding range_row
controls_range c i hc hi = ground (arith, all_below2_sound 256 8 range_row c i range_table hc hi)

-- A plain key is looked up in the shifted table exactly when left shift, right shift or caps lock
-- is on and control is off.
pub active_table_lem :
    (m : Keymap)
    → m.controls < 256
    → active_table m ≡ (
        if (is_on m.controls 3 || is_on m.controls 4 || is_on m.controls 5)
          && not (is_on m.controls 0)
        then m.shift_scancodes
        else m.scancodes)
unfolding active_table shifted_row
active_table_lem m h =
    ap (λ b. if b then m.shift_scancodes else m.scancodes)
      (iffb→eq _ _ (all_below_sound 256 shifted_row m.controls shifted_table h))

-- The search finds an index inside its range that holds the code.
pub find_control-some :
    (n i : ℕ) (map : List ℕ) (code : ℕ) {r : ℕ}
    → find_control n i map code ≡ some r
    → (r < i + n) × (get_or map r 0 ≡ code)
unfolding find_control
find_control-some zero i map code h = cc
find_control-some (suc n) i map code {r} h = elim (Bool-cases (get_or map i 0 == code)) [
  | inl e ↦ ground (arith, e)
  | inr d ↦ ground (arith, find_control-some n (i + 1) map code {r = r} (ground (arith, d)))
]

-- Each control key of the layouts is found at its own index, by both loops.
finds : ℕ → ℕ → Bool
finds n i = elim (find_control n 0 control_keys (get_or control_keys i 0)) [
  | none ↦ false
  | some j ↦ j == i
]

pressed_table : all_below 8 (finds 8) ≡ true
unfolding all_below finds find_control
pressed_table = refl

released_table : all_below 5 (finds 5) ≡ true
unfolding all_below finds find_control
released_table = refl

finds→eq :
    (n i : ℕ) → finds n i ≡ true → find_control n 0 control_keys (get_or control_keys i 0) ≡ some i
unfolding finds
finds→eq n i h = ground arith

pub find_pressed :
    (i : ℕ) → i < 8 → find_control 8 0 control_keys (get_or control_keys i 0) ≡ some i
find_pressed i h = finds→eq 8 i (all_below_sound 8 (finds 8) i pressed_table h)

pub find_released :
    (i : ℕ) → i < 5 → find_control 5 0 control_keys (get_or control_keys i 0) ≡ some i
find_released i h = finds→eq 5 i (all_below_sound 5 (finds 5) i released_table h)

-- The scancode of a control key is below 0x80, and 0x80 more when the key is released.
code_row : ℕ → Bool
code_row i =
    let code = get_or control_keys i 0 in
    (bit_and code 0x80 == 0)
    && not (bit_and (code + 0x80) 0x80 == 0)
    && (bit_and (code + 0x80) (not32 0x80) == code)

code_table : all_below 8 code_row ≡ true
unfolding all_below code_row
code_table = refl

pub control_code :
    (i : ℕ)
    → i < 8
    → let code = get_or control_keys i 0 in
      ((bit_and code 0x80 == 0) ≡ true)
      × ((bit_and (code + 0x80) 0x80 == 0) ≡ false)
      × (bit_and (code + 0x80) (not32 0x80) ≡ code)
unfolding code_row
control_code i h = ground (arith, all_below_sound 8 code_row i code_table h)

-- It finds nothing for a code that is none of the keys searched.
pub find_control-none :
    (n i : ℕ) (map : List ℕ) (code : ℕ)
    → ((j : ℕ) → j < i + n → get_or map j 0 ≢ code)
    → find_control n i map code ≡ none
unfolding find_control
find_control-none zero i map code h = refl
find_control-none (suc n) i map code h =
    rw (==_ne (get_or map i 0) code (h i (omega arith)))
      (find_control-none n (i + 1) map code (λ j k. h j (omega arith)))
