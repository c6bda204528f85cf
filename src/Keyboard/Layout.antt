-- ===== src/Keyboard/Layout.antt =====
-- The keymaps `us` and `gb` of src/keyboard.c, row by row as in the source. The entries that its
-- initialisers leave out are zero.
use os_implement.Prelude.{ℕ, List, [], ◌∷◌, ◌++◌, codes, replicate}

pub record Keymap : Type 0 where
  pub scancodes : List ℕ
  pub shift_scancodes : List ℕ
  pub control_map : List ℕ
  pub controls : ℕ

-- From scancode 55 on all four tables agree: '*', Alt, Space, Caps lock, F1 to F10, Num lock, Scroll
-- lock, Home, Up, Page up, '-', Left, 76, Right, '+', and the rest.
abbrev special_keys : List ℕ
special_keys =
    b'*' ∷ 0 ∷ b' ' ∷ 0 ∷ replicate 10 0
    ++ (0 ∷ 0 ∷ 0 ∷ 0 ∷ 0 ∷ b'-' ∷ 0 ∷ 0 ∷ 0 ∷ b'+' ∷ [])
    ++ replicate 49 0

-- Normal keys; the key with scancode 41 differs between the layouts.
abbrev normal_keys : ℕ → List ℕ
normal_keys key_41 =
    (0 ∷ 27 ∷ codes "1234567890-=" ++ 8 ∷ [])
    ++ (9 ∷ codes "qwertyuiop[]" ++ 10 ∷ [])
    ++ (0 ∷ codes "asdfghjkl;'" ++ key_41 ∷ [])
    ++ (0 ∷ 92 ∷ codes "zxcvbnm,./" ++ 0 ∷ [])
    ++ special_keys

abbrev caps_keys : List ℕ
caps_keys =
    (0 ∷ 27 ∷ codes "!@#$%^&*()_+" ++ 8 ∷ [])
    ++ (9 ∷ codes "QWERTYUIOP{}" ++ 10 ∷ [])
    ++ (0 ∷ codes "ASDFGHJKL:" ++ 34 ∷ codes "~")
    ++ (0 ∷ codes "|ZXCVBNM<>?" ++ 0 ∷ [])
    ++ special_keys

-- Ctrl, Alt, AltGr, left Shift, right Shift, Caps lock, Scroll lock, Num lock
abbrev pub control_keys : List ℕ
control_keys = 29 ∷ 56 ∷ 0 ∷ 42 ∷ 54 ∷ 58 ∷ 70 ∷ 69 ∷ []

abbrev pub us : Keymap
us = record {
  scancodes = normal_keys b'`';
  shift_scancodes = caps_keys;
  control_map = control_keys;
  controls = 0;
}

abbrev pub gb : Keymap
gb = record {
  scancodes = normal_keys b'#';
  shift_scancodes = caps_keys;
  control_map = control_keys;
  controls = 0;
}
