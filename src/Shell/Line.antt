-- ===== src/Shell/Line.antt =====
-- A line that is typed, as `scanf` reads it.
use os_implement.Prelude.{
  ℕ, suc, ◌+◌, ◌≤◌, ◌≡◌, ◌≢◌, inl, inr, refl, sym, ap, ◌∙◌, true, false, Option, none, some, List,
  [], ◌∷◌, ◌++◌, ◌==◌, if◌then◌else◌, set, drop, length, All, arith, Bool-cases,
}
use os_implement.Shell.{scanf_read, scanf}

-- The characters among what `keyboard_getchar` returns; it returns 0 while there is none.
abbrev pub letters : List ℕ → List ℕ
letters [] = []
letters (c ∷ cs) = if c == 0 then letters cs else c ∷ letters cs

abbrev pub NoNewline : List ℕ → Type 0
NoNewline = All (λ c. c ≢ 10)

abbrev behind : ℕ → Option (List ℕ × List ℕ × List ℕ) → Option (List ℕ × List ℕ × List ℕ)
behind d none = none
behind d (some (echo, v, rest)) = some (echo, d ∷ v, rest)

-- Reading from one place further on leaves the first byte alone.
scanf_read-cons :
    (cs : List ℕ) (i d : ℕ) (v : List ℕ)
    → scanf_read (suc i) (d ∷ v) cs ≡ behind d (scanf_read i v cs)
unfolding scanf_read
scanf_read-cons [] i d v = refl
scanf_read-cons (c ∷ cs) i d v =
    ground (arith, scanf_read-cons cs i d v, scanf_read-cons cs (i + 1) d (set v i c))

-- One character more.
scanf_read_step :
    (c d : ℕ) (cs v : List ℕ)
    → c ≢ 10
    → c ≢ 0
    → scanf_read 0 (d ∷ v) (c ∷ cs) ≡ (elim (scanf_read 0 v cs) [
      | none ↦ none
      | some (echo, v', rest) ↦ some (c ∷ echo, c ∷ v', rest)
    ])
unfolding scanf_read
scanf_read_step c d cs v h k = ground (arith, h, k, scanf_read-cons cs 0 c v)

abbrev line_read : List ℕ → List ℕ → List ℕ → Option (List ℕ × List ℕ × List ℕ)
line_read text rest v = some (text, text ++ drop (length text) v, rest)

more :
    (c : ℕ) (cs text rest w : List ℕ)
    → c ≢ 10
    → (c == 0) ≡ false
    → ((u : List ℕ) → length text ≤ length u → scanf_read 0 u cs ≡ line_read text rest u)
    → suc (length text) ≤ length w
    → scanf_read 0 w (c ∷ cs) ≡ line_read (c ∷ text) rest w
more c cs text rest [] h d ih l = absurd (omega arith)
more c cs text rest (x ∷ w) h d ih l =
    scanf_read_step c x cs w h (ground (arith, d)) ∙ rw (ih w (omega arith)) refl

scanf_read_wait :
    (c : ℕ) (cs v : List ℕ) → (c == 0) ≡ true → scanf_read 0 v (c ∷ cs) ≡ scanf_read 0 v cs
unfolding scanf_read
scanf_read_wait c cs v z = ground (arith, z)

scanf_read_letters :
    (cs rest v : List ℕ)
    → NoNewline cs
    → length (letters cs) ≤ length v
    → scanf_read 0 v (cs ++ 10 ∷ rest) ≡ line_read (letters cs) rest v
scanf_read_letters [] rest v h room = unfold scanf_read in refl
scanf_read_letters (c ∷ cs) rest v h room = elim (Bool-cases (c == 0)) [
  | inl z ↦
      let e : letters (c ∷ cs) ≡ letters cs = rw z in
      scanf_read_wait c (cs ++ 10 ∷ rest) v z
      ∙ scanf_read_letters cs rest v h.1 (ground (arith, z, room))
      ∙ ap (λ t. line_read t rest v) (sym e)
  | inr d ↦
      let e : letters (c ∷ cs) ≡ c ∷ letters cs = rw d in
      more c (cs ++ 10 ∷ rest) (letters cs) rest v h.0 d (λ u l. scanf_read_letters cs rest u h.1 l)
        (ground (arith, d, room))
      ∙ ap (λ t. line_read t rest v) (sym e)
]

scanf_wait : (c : ℕ) (cs v : List ℕ) → (c == 0) ≡ true → scanf v (c ∷ cs) ≡ scanf v cs
unfolding scanf
scanf_wait c cs v z = ground (arith, z)

scanf_begin :
    (c : ℕ) (cs v : List ℕ) → (c == 0) ≡ false → scanf v (c ∷ cs) ≡ scanf_read 0 v (c ∷ cs)
unfolding scanf
scanf_begin c cs v d = ground (arith, d)

-- A line, with waiting before and between its characters, and with room for it: `scanf` prints its
-- characters and stores them from the start of the array on, up to the newline. What stood behind them
-- stays: no NUL is written.
pub scanf-letters :
    (cs rest v : List ℕ)
    → NoNewline cs
    → length (letters cs) ≤ length v
    → scanf v (cs ++ 10 ∷ rest)
      ≡ some (letters cs, letters cs ++ drop (length (letters cs)) v, rest)
scanf-letters [] rest v h room = unfold scanf scanf_read in refl
scanf-letters (c ∷ cs) rest v h room = elim (Bool-cases (c == 0)) [
  | inl z ↦
      let e : letters (c ∷ cs) ≡ letters cs = rw z in
      scanf_wait c (cs ++ 10 ∷ rest) v z
      ∙ scanf-letters cs rest v h.1 (ground (arith, z, room))
      ∙ ap (λ t. line_read t rest v) (sym e)
  | inr d ↦ scanf_begin c (cs ++ 10 ∷ rest) v d ∙ scanf_read_letters (c ∷ cs) rest v h room
]
