-- ===== src/Frames/Byte.antt =====
-- One byte of the bitmap: the laws of its eight bits, and the inner loop of `first_frame`.
use os_implement.Prelude.{
  ℕ, zero, suc, ◌+◌, ◌≤◌, ◌<◌, ◌≡◌, inl, inr, refl, bit_and, bit_or, Bool, true, false, not, ◌&&◌,
  ◌||◌, Option, none, some, ◌==◌, ltb, arith, ==_iff, Bool-cases,
}
use os_implement.Prelude.Bits.{
  not32, all_below, all_below_sound, all_below2_sound, all_below3_sound, iffb, iffb→eq,
}
use os_implement.Frames.{mask, set_bit, clear_bit, first_bit}

-- Is the bit at an offset, counted from the highest, set?
abbrev pub has_bit : ℕ → ℕ → Bool
has_bit byte offset = not (bit_and byte (mask offset) == 0)

-- The tests of the tables below: every byte, every offset, every other offset.
abbrev set_row : ℕ → ℕ → ℕ → Bool
set_row b o p = iffb (has_bit (set_bit o b) p) ((p == o) || has_bit b p)

abbrev clear_row : ℕ → ℕ → ℕ → Bool
clear_row b o p = iffb (has_bit (clear_bit o b) p) (not (p == o) && has_bit b p)

abbrev range_row : ℕ → ℕ → Bool
range_row b o = ltb (set_bit o b) 256 && ltb (clear_bit o b) 256

abbrev test_row : ℕ → ℕ → Bool
test_row b o = iffb (bit_or (not32 (mask o)) b == 0xffff_ffff) (has_bit b o)

set_table : all_below 256 (λ b. all_below 8 (λ o. all_below 8 (set_row b o))) ≡ true
unfolding all_below
set_table = refl

clear_table : all_below 256 (λ b. all_below 8 (λ o. all_below 8 (clear_row b o))) ≡ true
unfolding all_below
clear_table = refl

range_table : all_below 256 (λ b. all_below 8 (range_row b)) ≡ true
unfolding all_below
range_table = refl

test_table : all_below 256 (λ b. all_below 8 (test_row b)) ≡ true
unfolding all_below
test_table = refl

full_table : all_below 8 (has_bit 0xff) ≡ true
unfolding all_below
full_table = refl

pub has_bit-set_bit :
    (b o p : ℕ) → b < 256 → o < 8 → p < 8 → has_bit (set_bit o b) p ≡ ((p == o) || has_bit b p)
has_bit-set_bit b o p hb ho hp =
    iffb→eq _ _ (all_below3_sound 256 8 8 set_row b o p set_table hb ho hp)

pub has_bit-clear_bit :
    (b o p : ℕ)
    → b < 256
    → o < 8
    → p < 8
    → has_bit (clear_bit o b) p ≡ (not (p == o) && has_bit b p)
has_bit-clear_bit b o p hb ho hp =
    iffb→eq _ _ (all_below3_sound 256 8 8 clear_row b o p clear_table hb ho hp)

pub byte_range : (b o : ℕ) → b < 256 → o < 8 → (set_bit o b < 256) × (clear_bit o b < 256)
byte_range b o hb ho = ground (arith, all_below2_sound 256 8 range_row b o range_table hb ho)

-- The test of the inner loop, on 32 bits, reads one bit.
pub first_bit_test :
    (b o : ℕ) → b < 256 → o < 8 → (bit_or (not32 (mask o)) b == 0xffff_ffff) ≡ has_bit b o
first_bit_test b o hb ho = iffb→eq _ _ (all_below2_sound 256 8 test_row b o test_table hb ho)

pub has_bit-full : (o : ℕ) → o < 8 → has_bit 0xff o ≡ true
has_bit-full o ho = all_below_sound 8 (has_bit 0xff) o full_table ho

clear_zero_table : all_below 8 (λ o. not (has_bit 0 o)) ≡ true
unfolding all_below
clear_zero_table = refl

pub has_bit_clear : (o : ℕ) → o < 8 → has_bit 0 o ≡ false
has_bit_clear o ho =
    let e = all_below_sound 8 (λ o. not (has_bit 0 o)) o clear_zero_table ho in ground (arith, e)

-- What the inner loop finds from offset j on: the first clear bit, or that there is none.
abbrev pub BitFound : ℕ → ℕ → Option ℕ → Type 0
BitFound j b none = (o : ℕ) → j ≤ o → o < 8 → has_bit b o ≡ true
BitFound j b (some k) =
    (j ≤ k) × (k < 8) × (has_bit b k ≡ false) × ((o : ℕ) → j ≤ o → o < k → has_bit b o ≡ true)

-- One more set bit in front keeps what the rest of the loop found.
BitFound-step :
    (j b : ℕ) (r : Option ℕ) → has_bit b j ≡ true → BitFound (j + 1) b r → BitFound j b r
BitFound-step j b none h f = λ o p q. elim (Bool-cases (o == j)) [
  | inl e ↦ let e' : o ≡ j = (==_iff o j).0 e in rw e' h
  | inr e ↦ f o (ground arith) q
]
BitFound-step j b (some k) h (p, q, c, f) = (
  omega arith,
  q,
  c,
  λ o s t. elim (Bool-cases (o == j)) [
    | inl e ↦ let e' : o ≡ j = (==_iff o j).0 e in rw e' h
    | inr e ↦ f o (ground arith) t
  ],
)

pub first_bit-BitFound :
    (rounds j b : ℕ) → b < 256 → j + rounds ≡ 8 → BitFound j b (first_bit rounds j b)
unfolding first_bit
first_bit-BitFound zero j b hb e = λ o p q. absurd (omega arith)
first_bit-BitFound (suc n) j b hb e = elim (Bool-cases (has_bit b j)) [
  | inl h ↦
      rw (first_bit_test b j hb (omega arith), h)
        (BitFound-step j b _ h (first_bit-BitFound n (j + 1) b hb (omega arith)))
  | inr h ↦
      rw (first_bit_test b j hb (omega arith), h)
        (omega arith, omega arith, h, λ o p q. absurd (omega arith))
]
