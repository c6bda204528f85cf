-- ===== src/Shell/Name.antt =====
-- The name behind a command, in the array of a line.
use os_implement.Prelude.{
  ℕ, zero, suc, ◌+◌, ◌-◌, ◌≤◌, ◌<◌, ◌≡◌, refl, ap, ◌∙◌, List, [], ◌∷◌, ◌++◌, take, drop, length,
  replicate, arith,
}
use os_implement.Text.Laws.{nul_terminated}
use os_implement.Shell.{name_of}

abbrev pub zeros : ℕ → List ℕ
zeros n = replicate n 0

drop-zeros : (n k : ℕ) → drop n (zeros k) ≡ zeros (k - n)
drop-zeros zero k = let e : k ≡ k - 0 = omega arith in ap zeros e
drop-zeros (suc n) zero = let e : 0 ≡ 0 - suc n = omega arith in ap zeros e
drop-zeros (suc n) (suc k) =
    let e : k - n ≡ suc k - suc n = omega arith in drop-zeros n k ∙ ap zeros e

zeros_after : (n k : ℕ) → n < k → drop n (zeros k) ≡ 0 ∷ zeros (k - n - 1)
zeros_after n k h = let e : k - n ≡ suc (k - n - 1) = omega arith in drop-zeros n k ∙ ap zeros e

take_text :
    (n : ℕ) (t w : List ℕ)
    → length t < n
    → take n (nul_terminated t w) ≡ nul_terminated t (take (n - length t - 1) w)
take_text zero t w h = elim h [ ]
take_text (suc n) [] w h = ap (λ j. 0 ∷ take j w) (omega arith)
take_text (suc n) (c ∷ t) w h =
    ap (◌∷◌ c) (take_text n t w (omega arith) ∙ ap (λ j. nul_terminated t (take j w)) (omega arith))

append_text : (t w f : List ℕ) → nul_terminated t w ++ f ≡ nul_terminated t (w ++ f)
append_text [] w f = refl
append_text (c ∷ t) w f = ap (◌∷◌ c) (append_text t w f)

-- What is behind a text of n letters, in an array of k zeros.
abbrev pub left_of : ℕ → ℕ → List ℕ
left_of n k = drop n (zeros k)

-- The name that a command finds behind its first five characters, in an array that was zero.
pub name_of_line :
    (t f : List ℕ) (a b c d e : ℕ)
    → length t ≤ 249
    → (us : List ℕ) × (name_of f (a ∷ b ∷ c ∷ d ∷ e ∷ t ++ left_of (5 + length t) 256)
        ≡ nul_terminated t us)
name_of_line t f a b c d e room =
    let w = zeros (256 - (5 + length t) - 1) in
    (
      take (250 - length t - 1) w ++ drop 250 f,
      ap (λ u. take 250 (t ++ u) ++ drop 250 f) (zeros_after (5 + length t) 256 (omega arith))
          ∙ ap (λ u. u ++ drop 250 f) (take_text 250 t w (omega arith))
          ∙ append_text t (take (250 - length t - 1) w) (drop 250 f),
    )
