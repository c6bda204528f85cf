-- ===== src/Keyboard/Ring.antt =====
-- The ring of 256 characters as a queue, oldest first.
use os_implement.Prelude.{
  ℕ, zero, suc, ◌+◌, ◌-◌, ◌%◌, ◌^◌, ◌<◌, ◌≡◌, ◌≢◌, ◌⊎◌, inl, inr, refl, ap, ◌∙◌, bit_and, true,
  false, not, ◌&&◌, List, [], ◌∷◌, ◌++◌, ◌==◌, ltb, if◌then◌else◌, arith, length, get_or, set,
  length-set, get_or-set, ltb→lt, ==_iff, ==_ne, Bool-cases,
}
use mathlib.Core.Path.{ap₂}
use os_implement.Prelude.Bits.{all_below, all_below_sound}
use os_implement.Keyboard.{Keyboard, keyboard_getchar, store_char}

pub record IsRing (k : Keyboard) : Type 0 where
  pub start : k.keyboard_buffer_start < 256
  pub end : k.keyboard_buffer_end < 256
  pub size : length k.keyboard_buffer ≡ 256

mask_table : all_below 256 (λ i. bit_and (i + 1) 255 == (i + 1) % 256) ≡ true
unfolding all_below
mask_table = refl

-- (i + 1) & 255
pub next_index : (i : ℕ) → i < 256 → bit_and (i + 1) 255 ≡ (i + 1) % 256
next_index i h =
    (==_iff _ _).0 (all_below_sound 256 (λ i. bit_and (i + 1) 255 == (i + 1) % 256) i mask_table h)

-- The n characters from index i on, going round at 256.
abbrev pub chars_from : List ℕ → ℕ → ℕ → List ℕ
chars_from buffer i zero = []
chars_from buffer i (suc n) = get_or buffer (i % 256) 0 ∷ chars_from buffer (i + 1) n

-- How many characters wait, and which.
abbrev pub waiting : Keyboard → ℕ
waiting k = (k.keyboard_buffer_end + 256 - k.keyboard_buffer_start) % 256

abbrev pub pending : Keyboard → List ℕ
pending k = chars_from k.keyboard_buffer k.keyboard_buffer_start (waiting k)

pub length-chars_from : (b : List ℕ) (i n : ℕ) → length (chars_from b i n) ≡ n
length-chars_from b i zero = refl
length-chars_from b i (suc n) = ap suc (length-chars_from b (i + 1) n)

chars_from_mod : (b : List ℕ) (i j n : ℕ) → i % 256 ≡ j % 256 → chars_from b i n ≡ chars_from b j n
chars_from_mod b i j zero e = refl
chars_from_mod b i j (suc n) e =
    ap₂ ◌∷◌ (ap (λ k. get_or b k 0) e) (chars_from_mod b (i + 1) (j + 1) n (omega arith))

-- A character stored behind the last one.
chars_from-set :
    (b : List ℕ) (c n i e : ℕ)
    → length b ≡ 256
    → n < 256
    → e ≡ (i + n) % 256
    → chars_from (set b e c) i (suc n) ≡ chars_from b i n ++ c ∷ []
chars_from-set b c zero i e size h at =
    ap (λ x. x ∷ []) (get_or-set b e (i % 256) c 0 (omega arith) ∙ rw same)
  where
    same : (i % 256 == e) ≡ true
    same = (==_iff (i % 256) e).1 (omega arith)
chars_from-set b c (suc n) i e size h at =
    ap₂ ◌∷◌ (get_or-set b e (i % 256) c 0 (omega arith) ∙ rw other)
      (chars_from-set b c n (i + 1) e size (omega arith) (omega arith))
  where
    other : (i % 256 == e) ≡ false
    other = ==_ne (i % 256) e (omega arith)

-- The test of the handler lets a character in unless 255 wait already or the ring stands with its
-- start at 0 and its end at 255.
pub has_room :
    (k : Keyboard)
    → IsRing k
    → (k.keyboard_buffer_end == (k.keyboard_buffer_start + 2 ^ 32 - 1) % 2 ^ 32)
      ≡ ((waiting k == 255) && not (k.keyboard_buffer_start == 0))
has_room k ok = ground (arith, ok.start, ok.end)

pub store_char-IsRing : (c : ℕ) (k : Keyboard) → IsRing k → IsRing (store_char c k)
unfolding store_char
store_char-IsRing c k ok = ground (
  arith,
  next_index k.keyboard_buffer_end ok.end,
  length-set k.keyboard_buffer k.keyboard_buffer_end c,
)

pub keyboard_getchar-IsRing : (k : Keyboard) → IsRing k → IsRing (keyboard_getchar k).1
unfolding keyboard_getchar
keyboard_getchar-IsRing k ok = ground (arith, next_index k.keyboard_buffer_start ok.start)

-- What a character does to the queue: it goes to the end while fewer than 255 wait. With 255
-- waiting it is dropped, except where the start of the ring is index 0: then the end meets the
-- start, and all 256 characters are lost.
pub pending-store_char :
    (c : ℕ) (k : Keyboard)
    → IsRing k
    → pending (store_char c k) ≡ (
        if ltb (waiting k) 255
        then pending k ++ c ∷ []
        else if k.keyboard_buffer_start == 0
        then []
        else pending k)
unfolding store_char
pending-store_char c k ok = elim (Bool-cases (ltb (waiting k) 255)) [
  | inl h ↦
      let room : (waiting k == 255) ≡ false = ground arith in
      let moved : ((k.keyboard_buffer_end + 1) % 256 + 256 - k.keyboard_buffer_start) % 256
          ≡ suc (waiting k) =
        omega (arith, ok.start, ok.end, ltb→lt (waiting k) 255 h) in
      rw (has_room k ok, room, h, next_index k.keyboard_buffer_end ok.end, moved)
        (chars_from-set k.keyboard_buffer c (waiting k) k.keyboard_buffer_start
          k.keyboard_buffer_end ok.size (omega arith) (omega (arith, ok.start, ok.end)))
  | inr h ↦
      let full : (waiting k == 255) ≡ true = ground arith in
      elim (Bool-cases (k.keyboard_buffer_start == 0)) [
        | inl z ↦
            let none_left : ((k.keyboard_buffer_end + 1) % 256 + 256 - k.keyboard_buffer_start)
                  % 256
                ≡ 0 =
              omega (arith, (==_iff _ _).0 z, (==_iff _ _).0 full, ok.start, ok.end) in
            rw (has_room k ok, full, z, h, next_index k.keyboard_buffer_end ok.end, none_left)
        | inr z ↦ rw (has_room k ok, full, z, h)
      ]
]

-- The queue of a ring whose ends differ begins with the character at its start.
first_char :
    (k : Keyboard)
    → IsRing k
    → k.keyboard_buffer_start ≢ k.keyboard_buffer_end
    → let next = bit_and (k.keyboard_buffer_start + 1) 255 in
      pending k
      ≡ get_or k.keyboard_buffer k.keyboard_buffer_start 0
        ∷ chars_from k.keyboard_buffer next ((k.keyboard_buffer_end + 256 - next) % 256)
first_char k ok d =
    let next = bit_and (k.keyboard_buffer_start + 1) 255 in
    let at = next_index k.keyboard_buffer_start ok.start in
    let w : waiting k ≡ suc ((k.keyboard_buffer_end + 256 - next) % 256) =
      omega (arith, at, ok.start, ok.end) in
    let start : k.keyboard_buffer_start % 256 ≡ k.keyboard_buffer_start = omega (arith, ok.start) in
    ap (chars_from k.keyboard_buffer k.keyboard_buffer_start) w
    ∙ ap₂ ◌∷◌ (ap (λ i. get_or k.keyboard_buffer i 0) start) (
        chars_from_mod k.keyboard_buffer (k.keyboard_buffer_start + 1) next
          ((k.keyboard_buffer_end + 256 - next) % 256) (omega arith))

-- `keyboard_getchar` takes the oldest character off the queue; it returns '\0' and changes nothing
-- when the queue is empty.
pub pending-keyboard_getchar :
    (k : Keyboard)
    → IsRing k
    → ((c : ℕ) × ((keyboard_getchar k).0 ≡ c) × (pending k ≡ c ∷ pending (keyboard_getchar k).1))
      ⊎ ((pending k ≡ []) × (keyboard_getchar k ≡ (0, k)))
unfolding keyboard_getchar
pending-keyboard_getchar k ok =
    elim (Bool-cases (k.keyboard_buffer_start == k.keyboard_buffer_end)) [
      | inl e ↦
          let w : waiting k ≡ 0 = omega (arith, (==_iff _ _).0 e, ok.start) in
          rw e (inr (ap (chars_from k.keyboard_buffer k.keyboard_buffer_start) w, refl))
      | inr d ↦ rw d (
          inl (
            get_or k.keyboard_buffer k.keyboard_buffer_start 0,
            refl,
            first_char k ok (λ e. cc ((==_iff _ _).1 e, d)),
          ))
    ]
