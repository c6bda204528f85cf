-- ===== src/Frames/Bitmap.antt =====
-- `set_frame`, `clear_frame` and `isIn_frame` against the set of used frames.
use os_implement.Prelude.{
  ℕ, ◌*◌, ◌/◌, ◌%◌, ◌≤◌, ◌<◌, ◌≡◌, inl, inr, bit_and, Bool, true, false, not, none, some, List,
  ◌==◌, if◌then◌else◌, arith, ==_iff, Bool-cases, All, length, get_elem?, set, length-set,
  get_elem?-set_self, get_elem?-set_ne, get_elem?_lt, All-get_elem?, All-set, get_elem?_ge,
}
use os_implement.Frames.{mask, update_byte, set_bit, clear_bit, set_frame, clear_frame, is_in_frame}
use os_implement.Frames.Byte.{has_bit, has_bit-set_bit, has_bit-clear_bit, byte_range}

abbrev pub IsBitmap : List ℕ → Type 0
IsBitmap = All (λ byte. byte < 256)

-- Is frame n marked as used?
abbrev pub used : List ℕ → ℕ → Bool
used frames n = elim (get_elem? frames (n / 8)) [ none ↦ false | some byte ↦ has_bit byte (n % 8) ]

-- A bitmap of the same size that differs from another at most at frame n, where it has v.
pub record Marked (frames : List ℕ) (n : ℕ) (v : Bool) (after : List ℕ) : Type 0 where
  pub bytes : IsBitmap after
  pub size : length after ≡ length frames
  pub marks : (m : ℕ) → used after m ≡ (if m == n then v else used frames m)

module _ (frames : List ℕ) (f : ℕ → ℕ → ℕ) (v : Bool)
    (law : (b o p : ℕ)
      → b < 256
      → o < 8
      → p < 8
      → has_bit (f o b) p ≡ (if p == o then v else has_bit b p))
    (small : (b o : ℕ) → b < 256 → o < 8 → f o b < 256) (bitmap : IsBitmap frames) where
  used-set :
      (n m b : ℕ)
      → get_elem? frames (n / 8) ≡ some b
      → n / 8 < length frames
      → used (set frames (n / 8) (f (n % 8) b)) m ≡ (if m == n then v else used frames m)
  used-set n m b e h = elim (Bool-cases (m / 8 == n / 8)) [
    | inl s ↦
        let q : m / 8 ≡ n / 8 = (==_iff (m / 8) (n / 8)).0 s in
        rw (used, q, e, get_elem?-set_self frames (n / 8) (f (n % 8) b) h)
          (ground (
            arith,
            law b (n % 8) (m % 8) (All-get_elem? (λ byte. byte < 256) frames (n / 8) bitmap e)
                (omega arith) (omega arith),
          ))
    | inr d ↦
        rw (used, get_elem?-set_ne frames (n / 8) (m / 8) (f (n % 8) b) (ground arith))
          (ground arith)
  ]

  update_byte-Marked :
      (n : ℕ)
      → n < 8 * length frames
      → (after : List ℕ) × (update_byte frames (n / 8) (f (n % 8)) ≡ some after)
        × Marked frames n v after
  update_byte-Marked n h =
      let (b, e) = get_elem?_lt frames (n / 8) (omega arith) in
      (
        set frames (n / 8) (f (n % 8) b),
        rw (e, update_byte),
        record {
          bytes =
              All-set (λ byte. byte < 256) frames (n / 8) (f (n % 8) b) bitmap
                (small b (n % 8) (All-get_elem? (λ byte. byte < 256) frames (n / 8) bitmap e)
                  (omega arith));
          size = length-set frames (n / 8) (f (n % 8) b);
          marks = λ m. used-set n m b e (omega arith);
        },
      )

-- `set_frame` at an address inside the frames of the bitmap succeeds, marks the frame of that
-- address as used, and changes no other frame's mark.
pub set_frame-Marked :
    (frames : List ℕ) (addr : ℕ)
    → IsBitmap frames
    → addr / 0x1000 < 8 * length frames
    → (after : List ℕ) × (set_frame frames addr ≡ some after)
      × Marked frames (addr / 0x1000) true after
unfolding set_frame
set_frame-Marked frames addr bitmap h =
    update_byte-Marked frames set_bit true
      (λ b o p hb ho hp. ground (arith, has_bit-set_bit b o p hb ho hp))
      (λ b o hb ho. (byte_range b o hb ho).0) bitmap (addr / 0x1000) h

pub clear_frame-Marked :
    (frames : List ℕ) (addr : ℕ)
    → IsBitmap frames
    → addr / 0x1000 < 8 * length frames
    → (after : List ℕ) × (clear_frame frames addr ≡ some after)
      × Marked frames (addr / 0x1000) false after
unfolding clear_frame
clear_frame-Marked frames addr bitmap h =
    update_byte-Marked frames clear_bit false
      (λ b o p hb ho hp. ground (arith, has_bit-clear_bit b o p hb ho hp))
      (λ b o hb ho. (byte_range b o hb ho).1) bitmap (addr / 0x1000) h

pub is_in_frame-used :
    (frames : List ℕ) (addr : ℕ)
    → addr / 0x1000 < 8 * length frames
    → (r : ℕ) × (is_in_frame frames addr ≡ some r) × (not (r == 0) ≡ used frames (addr / 0x1000))
unfolding is_in_frame
is_in_frame-used frames addr h =
    let (b, e) = get_elem?_lt frames (addr / 0x1000 / 8) (omega arith) in
    (bit_and b (mask (addr / 0x1000 % 8)), rw (e, is_in_frame), rw (e, used))

-- Past the last frame of the bitmap the write is outside of it.
pub set_frame_outside :
    (frames : List ℕ) (addr : ℕ) → 8 * length frames ≤ addr / 0x1000 → set_frame frames addr ≡ none
unfolding set_frame
set_frame_outside frames addr h =
    rw (get_elem?_ge frames (addr / 0x1000 / 8) (omega arith), set_frame, update_byte)
