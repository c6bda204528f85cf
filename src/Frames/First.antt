-- ===== src/Frames/First.antt =====
-- `first_frame` and the least free frame.
use os_implement.Prelude.{
  ℕ, suc, ◌+◌, ◌-◌, ◌*◌, ◌/◌, ◌%◌, ◌^◌, ◌<◌, ◌≡◌, ◌⊎◌, inl, inr, refl, true, false, none, some,
  List, [], ◌∷◌, ◌==◌, arith, ==_iff, ltb, Bool-cases, Option-cases, length, get_elem?,
}
use mathlib.Core.Path.{subst}
use os_implement.Frames.{first_bit, first_frame_from, first_frame}
use os_implement.Frames.Byte.{has_bit, BitFound, first_bit-BitFound, has_bit-full}
use os_implement.Frames.Bitmap.{IsBitmap, used}

-- n is the least free frame of the bitmap.
pub record IsFirstFree (frames : List ℕ) (n : ℕ) : Type 0 where
  pub inside : n < 8 * length frames
  pub free : used frames n ≡ false
  pub least : (m : ℕ) → m < n → used frames m ≡ true

abbrev pub IsFull : List ℕ → Type 0
IsFull frames = (m : ℕ) → m < 8 * length frames → used frames m ≡ true

-- The two outcomes of the search from byte i on.
abbrev Found : ℕ → List ℕ → ℕ → Type 0
Found i frames r =
    ((n : ℕ) × (r ≡ i * 8 + n) × IsFirstFree frames n) ⊎ ((r ≡ 0xffff_ffff) × IsFull frames)

-- A frame of the first byte, and one of the other bytes.
used-cons_head : (b : ℕ) (bs : List ℕ) (m : ℕ) → m < 8 → used (b ∷ bs) m ≡ has_bit b m
used-cons_head b bs m h =
    let e : m / 8 ≡ 0 = omega arith in let e' : m % 8 ≡ m = omega arith in rw (used, e, e')

used-cons_tail : (b : ℕ) (bs : List ℕ) (m : ℕ) → used (b ∷ bs) (m + 8) ≡ used bs m
used-cons_tail b bs m =
    let e : (m + 8) / 8 ≡ suc (m / 8) = omega arith in
    let e' : (m + 8) % 8 ≡ m % 8 = omega arith in
    λ i. elim (get_elem? (b ∷ bs) (e i)) [ none ↦ false | some byte ↦ has_bit byte (e' i) ]

-- A full first byte leaves the search to the others.
module _ (b : ℕ) (bs : List ℕ) (full : (o : ℕ) → o < 8 → has_bit b o ≡ true) where
  used-cons_full :
      (k : ℕ) → ((m : ℕ) → m < k → used bs m ≡ true) → (m : ℕ) → m < k + 8 → used (b ∷ bs) m ≡ true
  used-cons_full k h m lt = elim (Bool-cases (ltb m 8)) [
    | inl s ↦ rw (used-cons_head b bs m (ground arith)) (full m (ground arith))
    | inr d ↦
        let e : m ≡ m - 8 + 8 = ground arith in
        rw (e, used-cons_tail b bs (m - 8)) (h (m - 8) (ground arith))
  ]

  Found-cons : (i r : ℕ) → Found (i + 1) bs r → Found i (b ∷ bs) r
  Found-cons i r (inl (n, e, f)) = inl (
    n + 8,
    omega arith,
    record {
      inside = omega (arith, f.inside);
      free = rw (used-cons_tail b bs n) (f.free);
      least = used-cons_full n (f.least);
    },
  )
  Found-cons i r (inr (e, f)) = inr (e, λ m h. used-cons_full (8 * length bs) f m (omega arith))

-- A clear bit of the first byte.
IsFirstFree-head : (b : ℕ) (bs : List ℕ) (k : ℕ) → BitFound 0 b (some k) → IsFirstFree (b ∷ bs) k
IsFirstFree-head b bs k (p, q, c, f) = record {
  inside = omega arith;
  free = rw (used-cons_head b bs k q) c;
  least = λ m h. rw (used-cons_head b bs m (omega arith)) (f m (omega arith) h);
}

-- One byte of the search.
module _ (i b : ℕ) (bs : List ℕ) where
  first_frame_from_full :
      (b == 0xff) ≡ true → first_frame_from i (b ∷ bs) ≡ first_frame_from (i + 1) bs
  unfolding first_frame_from
  first_frame_from_full e = ground arith

  first_frame_from-none :
      first_bit 8 0 b ≡ none → first_frame_from i (b ∷ bs) ≡ first_frame_from (i + 1) bs
  unfolding first_frame_from
  first_frame_from-none e = ground arith

  first_frame_from-some :
      (k : ℕ)
      → (b == 0xff) ≡ false
      → first_bit 8 0 b ≡ some k
      → first_frame_from i (b ∷ bs) ≡ (i * 8 + k) % 2 ^ 32
  unfolding first_frame_from
  first_frame_from-some k d e = ground arith

first_frame_from-Found :
    (i : ℕ) (frames : List ℕ)
    → IsBitmap frames
    → 8 * (i + length frames) < 2 ^ 32
    → Found i frames (first_frame_from i frames)
first_frame_from-Found i [] bitmap h =
    inr (unfold first_frame_from in refl, λ m lt. absurd (omega arith))
first_frame_from-Found i (b ∷ bs) bitmap h =
    let rest = first_frame_from-Found (i + 1) bs bitmap.1 (omega arith) in
    elim (Bool-cases (b == 0xff)) [
      | inl e ↦ rw (first_frame_from_full i b bs e) (
          Found-cons b bs
            (λ o ho. let e' : b ≡ 0xff = (==_iff b 0xff).0 e in rw e' (has_bit-full o ho)) i _ rest)
      | inr d ↦ elim (Option-cases (first_bit 8 0 b)) [
        | inl e ↦
            let f : BitFound 0 b none =
              subst (BitFound 0 b) e (first_bit-BitFound 8 0 b bitmap.0 refl) in
            rw (first_frame_from-none i b bs e)
              (Found-cons b bs (λ o ho. f o (omega arith) ho) i _ rest)
        | inr (k, e) ↦
            let f : BitFound 0 b (some k) =
              subst (BitFound 0 b) e (first_bit-BitFound 8 0 b bitmap.0 refl) in
            rw (first_frame_from-some i b bs k d e)
              (inl (k, omega arith, IsFirstFree-head b bs k f))
      ]
    ]

-- On a bitmap of fewer than 2^29 bytes `first_frame` returns the least free frame; it returns
-- 0xffffffff, the -1 of the source, exactly when every frame is used.
pub first_frame-IsFirstFree :
    (frames : List ℕ)
    → IsBitmap frames
    → 8 * length frames < 2 ^ 32
    → IsFirstFree frames (first_frame frames) ⊎ ((first_frame frames ≡ 0xffff_ffff) × IsFull frames)
unfolding first_frame
first_frame-IsFirstFree frames bitmap h =
    elim (first_frame_from-Found 0 frames bitmap (omega arith)) [
      | inl (n, e, f) ↦ let e' : first_frame_from 0 frames ≡ n = omega arith in rw e' (inl f)
      | inr f ↦ inr f
    ]
