-- ===== src/Text/Laws.antt =====
-- `strcmp`, `strlen` and `strcpy` in terms of texts.
use os_implement.Prelude.{
  ℕ, suc, ◌<◌, ◌≡◌, ◌≢◌, ◌↔◌, inl, inr, refl, ap, Option, none, some, List, [], ◌∷◌, ◌++◌, ◌==◌,
  arith, length, drop, set, All, ==_iff, ==_ne, Bool-cases,
}
use mathlib.Core.Path.{ap₂}
use os_implement.Text.{text, strlen, equal, differ, strcmp, put, strcpy_from, strcpy}

-- An array that holds the text xs, then a NUL, then anything.
abbrev pub nul_terminated : List ℕ → List ℕ → List ℕ
nul_terminated xs rest = xs ++ 0 ∷ rest

abbrev pub IsText : List ℕ → Type 0
IsText = All (λ c. c ≢ 0)

pub text-nul_terminated : (xs rest : List ℕ) → IsText xs → text (nul_terminated xs rest) ≡ xs
text-nul_terminated [] rest h = refl
text-nul_terminated (x ∷ xs) rest h = rw (==_ne x 0 h.0, text-nul_terminated xs rest h.1)

pub strlen-length :
    (xs rest : List ℕ) → IsText xs → strlen (nul_terminated xs rest) ≡ some (length xs)
unfolding strlen
strlen-length [] rest h = refl
strlen-length (x ∷ xs) rest h =
    rw (==_ne x 0 h.0, strlen-length xs rest h.1) (ap some (omega arith))

tail_eq : {x y : ℕ} {xs ys : List ℕ} → x ∷ xs ≡ y ∷ ys → xs ≡ ys
tail_eq p = cc

-- `strcmp` of two texts that end with a NUL returns zero exactly where they are equal, whatever
-- stands behind the NULs.
pub strcmp-equal :
    (xs ys us vs : List ℕ)
    → IsText xs
    → IsText ys
    → (strcmp (nul_terminated xs us) (nul_terminated ys vs) ≡ some equal) ↔ (xs ≡ ys)
unfolding strcmp
strcmp-equal [] [] us vs h k = (λ _. refl, λ _. refl)
strcmp-equal [] (y ∷ ys) us vs h k = ground (arith, k.0)
strcmp-equal (x ∷ xs) [] us vs h k = ground (arith, h.0)
strcmp-equal (x ∷ xs) (y ∷ ys) us vs h k =
    let ih = strcmp-equal xs ys us vs h.1 k.1 in
    elim (Bool-cases (x == y)) [
      | inl e ↦
          let e' : x ≡ y = (==_iff x y).0 e in
          rw (e, ==_ne x 0 h.0) (λ p. ap₂ ◌∷◌ e' (ih.0 p), λ p. ih.1 (tail_eq p))
      | inr d ↦ rw d (λ p. cc, λ p. ground (arith, p))
    ]

abbrev behind : ℕ → Option (List ℕ) → Option (List ℕ)
behind d none = none
behind d (some r) = some (d ∷ r)

-- Copying from one place further on leaves the first byte alone.
strcpy_from-cons :
    (src : List ℕ) (i d : ℕ) (dest : List ℕ)
    → strcpy_from (suc i) (d ∷ dest) src ≡ behind d (strcpy_from i dest src)
unfolding strcpy_from put
strcpy_from-cons [] i d dest = refl
strcpy_from-cons (c ∷ []) i d dest = refl
strcpy_from-cons (c ∷ e ∷ src) i d dest =
    ground (arith, strcpy_from-cons (e ∷ src) (suc i) d (set dest i c))

-- `strcpy` of a text that is not empty, into an array with room for it, writes its bytes and leaves the
-- rest of the array as it was: there is a NUL behind the copy only if there was one before.
pub strcpy_lem :
    (x : ℕ) (xs rest dest : List ℕ)
    → IsText (x ∷ xs)
    → length xs < length dest
    → strcpy dest (nul_terminated (x ∷ xs) rest) ≡ some ((x ∷ xs) ++ drop (suc (length xs)) dest)
unfolding strcpy strcpy_from put
strcpy_lem x [] rest [] h room = elim room [ ]
strcpy_lem x [] rest (d ∷ dest) h room = ground arith
strcpy_lem x (y ∷ xs) rest [] h room = elim room [ ]
strcpy_lem x (y ∷ xs) rest (d ∷ dest) h room = ground (
  arith,
  h.1.0,
  strcpy_from-cons (y ∷ (xs ++ 0 ∷ rest)) 0 x dest,
  strcpy_lem y xs rest dest h.1 (omega arith),
)

-- Two texts that differ are told apart.
pub strcmp-differ :
    (xs ys us vs : List ℕ)
    → IsText xs
    → IsText ys
    → xs ≢ ys
    → (a b : ℕ) × (strcmp (nul_terminated xs us) (nul_terminated ys vs) ≡ some (differ a b))
unfolding strcmp
strcmp-differ [] [] us vs h k ne = absurd (ne refl)
strcmp-differ [] (y ∷ ys) us vs h k ne = (0, y, ground (arith, k.0))
strcmp-differ (x ∷ xs) [] us vs h k ne = (x, 0, ground (arith, h.0))
strcmp-differ (x ∷ xs) (y ∷ ys) us vs h k ne = elim (Bool-cases (x == y)) [
  | inl e ↦
      let e' : x ≡ y = (==_iff x y).0 e in
      let (a, b, p) = strcmp-differ xs ys us vs h.1 k.1 (λ q. ne (ap₂ ◌∷◌ e' q)) in
      (a, b, rw (e, ==_ne x 0 h.0) p)
  | inr d ↦ (x, y, rw d)
]
