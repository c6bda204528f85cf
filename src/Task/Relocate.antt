-- ===== src/Task/Relocate.antt =====
-- The words of the new stack.
use os_implement.Prelude.{
  ℕ, zero, suc, ◌+◌, ◌-◌, ◌*◌, ◌^◌, ◌≤◌, ◌<◌, ◌≡◌, inl, inr, refl, sym, ap, ◌∙◌, false, ◌&&◌, some,
  arith, Bool-cases, ltb, if◌then◌else◌, lt→ltb, ==_iff, ◌==◌,
}
use os_implement.Heap.{add32, sub32}
use os_implement.Heap.Bytes.{
  Memory, load32, store32, IsApart, IsApart-within, IsApart-above, IsApart-below,
  load32-store32_self, load32-store32_apart, IsKept, store32-IsKept,
}
use os_implement.Task.Stack.{relocate, relocate_words}

module _ (old_stack_p initial_esp offset : ℕ) where
  -- The memory after one round at i.
  abbrev relocated_at : ℕ → Memory → Memory
  relocated_at i m =
      if ltb old_stack_p (load32 m i) && ltb (load32 m i) initial_esp
      then store32 m i (add32 (load32 m i) offset)
      else m

  relocated_at_self :
      (i : ℕ) (m : Memory)
      → load32 (relocated_at i m) i ≡ relocate old_stack_p initial_esp offset (load32 m i)
  relocated_at_self i m =
      elim (Bool-cases (ltb old_stack_p (load32 m i) && ltb (load32 m i) initial_esp)) [
        | inl e ↦ rw e (load32-store32_self m i (add32 (load32 m i) offset) (omega arith))
        | inr e ↦ rw e refl
      ]

  relocated_at_apart :
      (i b : ℕ) (m : Memory) → IsApart i 4 b 4 → load32 (relocated_at i m) b ≡ load32 m b
  relocated_at_apart i b m r =
      elim (Bool-cases (ltb old_stack_p (load32 m i) && ltb (load32 m i) initial_esp)) [
        | inl e ↦ rw e (load32-store32_apart m i (add32 (load32 m i) offset) b r)
        | inr e ↦ rw e refl
      ]

  relocated_at-IsKept :
      (bound i : ℕ) (m : Memory) → bound ≤ i → i + 4 ≤ 2 ^ 32 → IsKept bound m (relocated_at i m)
  relocated_at-IsKept bound i m h l a small =
      let k = store32-IsKept bound i (add32 (load32 m i) offset) m m h l (λ b s. refl) a small in
      elim (Bool-cases (ltb old_stack_p (load32 m i) && ltb (load32 m i) initial_esp)) [
        | inl e ↦ rw e k
        | inr e ↦ rw e refl
      ]

  relocate_step :
      (fuel last i : ℕ) (m : Memory)
      → last < i
      → 4 ≤ i
      → i < 2 ^ 32
      → relocate_words old_stack_p initial_esp offset (suc fuel) last i m
        ≡ relocate_words old_stack_p initial_esp offset fuel last (i - 4) (relocated_at i m)
  unfolding relocate_words
  relocate_step fuel last i m h l small =
      let next : sub32 i 4 ≡ i - 4 = omega arith in rw (relocate_words, lt→ltb last i h, next) refl

  relocate_end :
      (fuel last : ℕ) (m : Memory)
      → relocate_words old_stack_p initial_esp offset (suc fuel) last last m ≡ some m
  unfolding relocate_words
  relocate_end fuel last m =
      let done : ltb last last ≡ false = ground arith in rw (relocate_words, done) refl

  -- Each word above `last` moves along, and the others stay.
  pub relocate_words-relocate :
      (n fuel last : ℕ) (m : Memory)
      → n < fuel
      → last + 4 * n + 4 ≤ 2 ^ 32
      → (m' : Memory) × (relocate_words old_stack_p initial_esp offset fuel last (last + 4 * n) m
          ≡ some m')
        × ((k : ℕ)
            → 0 < k
            → k ≤ n
            → load32 m' (last + 4 * k)
              ≡ relocate old_stack_p initial_esp offset (load32 m (last + 4 * k)))
        × ((b : ℕ) → IsApart (last + 4) (4 * n) b 4 → load32 m' b ≡ load32 m b)
        × IsKept (last + 4) m m'
  relocate_words-relocate n zero last m h l = absurd (omega arith)
  relocate_words-relocate zero (suc fuel) last m h l = (
    m,
    ap (λ i. relocate_words old_stack_p initial_esp offset (suc fuel) last i m) (omega arith)
        ∙ relocate_end fuel last m,
    λ k a b. absurd (omega arith),
    λ b r. refl,
    λ b h. refl,
  )
  relocate_words-relocate (suc n) (suc fuel) last m h l =
      let i = last + 4 * suc n in
      let m1 = relocated_at i m in
      let (m', e, moved, kept, below) =
        relocate_words-relocate n fuel last m1 (omega arith) (omega arith) in
      (
        m',
        relocate_step fuel last i m (omega arith) (omega arith) (omega arith)
            ∙ ap (λ j. relocate_words old_stack_p initial_esp offset fuel last j m1) (omega arith)
            ∙ e,
        λ k a b. elim (Bool-cases (k == suc n)) [
          | inl q ↦
              let top : k ≡ suc n = (==_iff k (suc n)).0 q in
              let same = ap (λ j. load32 m' (last + 4 * j)) top in
              let back =
                ap (λ j. relocate old_stack_p initial_esp offset (load32 m (last + 4 * j)))
                  (sym top) in
              same
              ∙ kept i (IsApart-below (omega arith) (omega arith))
              ∙ relocated_at_self i m
              ∙ back
          | inr d ↦
              moved k a (ground (arith, b, d))
              ∙ ap (relocate old_stack_p initial_esp offset) (
                  relocated_at_apart i (last + 4 * k) m
                    (IsApart-above (ground (arith, b, d)) (omega arith)))
        ],
        λ b r.
            kept b (IsApart-within r (omega arith) (omega arith))
            ∙ relocated_at_apart i b m (IsApart-within r (omega arith) (omega arith)),
        λ b h. below b h ∙ relocated_at-IsKept (last + 4) i m (omega arith) (omega arith) b h,
      )
