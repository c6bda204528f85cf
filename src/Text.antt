-- ===== src/Text.antt =====
-- The string functions of src/common.c that the file system uses. A `char` array is the list of its
-- bytes, never at NULL; `none` is an access outside of an array.
pub mod Laws
pub mod Copy
mod Tests
use os_implement.Prelude.{
  ℕ, zero, suc, ◌+◌, ◌-◌, Option, none, some, List, [], ◌∷◌, ◌==◌, ltb, if◌then◌else◌, get_elem?,
  set, length,
}

-- The text in an array: its bytes up to the first NUL.
abbrev pub text : List ℕ → List ℕ
text [] = []
text (c ∷ cs) = if c == 0 then [] else c ∷ text cs

unfoldable pub strlen : List ℕ → Option ℕ
strlen [] = none
strlen (c ∷ cs) =
    let rest = strlen cs in
    if c == 0 then some 0 else elim rest [ none ↦ none | some n ↦ some (n + 1) ]

-- The result of `strcmp`: zero, or the two bytes whose difference is returned.
pub data Comparison : Type 0 where
  equal : Comparison
  differ : ℕ → ℕ → Comparison

unfoldable pub strcmp : List ℕ → List ℕ → Option Comparison
strcmp [] s2 = none
strcmp (a ∷ s1) [] = none
strcmp (a ∷ s1) (b ∷ s2) =
    let rest = strcmp s1 s2 in
    if a == b then (if a == 0 then some equal else rest) else some (differ a b)

-- dest[i] = c
unfoldable pub put : List ℕ → ℕ → ℕ → Option (List ℕ)
put dest i c = if ltb i (length dest) then some (set dest i c) else none

-- `do { *d++ = *src++; } while (*src != '\0')`, from dest[i] on: no NUL is written at the end.
unfoldable pub strcpy_from : ℕ → List ℕ → List ℕ → Option (List ℕ)
strcpy_from i dest [] = none
strcpy_from i dest (c ∷ []) = none
strcpy_from i dest (c ∷ d ∷ src) = elim (put dest i c) [
  | none ↦ none
  | some dest' ↦
      let rest = strcpy_from (suc i) dest' (d ∷ src) in if d == 0 then some dest' else rest
]

unfoldable pub strcpy : List ℕ → List ℕ → Option (List ℕ)
strcpy dest src = strcpy_from 0 dest src
