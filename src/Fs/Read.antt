-- ===== src/Fs/Read.antt =====
-- `initrd_read` and the bytes of a file.
use os_implement.Prelude.{
  ℕ, zero, suc, ◌+◌, ◌-◌, ◌%◌, ◌^◌, ◌≤◌, ◌<◌, ◌≡◌, refl, sym, ap, ◌∙◌, some, List, [], ◌∷◌, ltb,
  ltb→lt, get_elem?, take, drop, length, arith, min, Bool-cases,
}
use mathlib.Core.Path.{ap₂}
use mathlib.Core.Logic.{inl, inr}
use os_implement.Fs.Node.{FileHeader, Initrd}
use os_implement.Fs.Initrd.{load_bytes, clamp, initrd_read}

-- The bytes of a file.
abbrev pub contents : Initrd → FileHeader → List ℕ
contents s header = load_bytes s.memory header.offset header.length

module _ (m : ℕ → ℕ) where
  pub length-load_bytes : (a n : ℕ) → length (load_bytes m a n) ≡ n
  unfolding load_bytes
  length-load_bytes a zero = refl
  length-load_bytes a (suc n) = ap suc (length-load_bytes (a + 1) n)

  drop-load_bytes : (k a n : ℕ) → drop k (load_bytes m a n) ≡ load_bytes m (a + k) (n - k)
  unfolding load_bytes
  drop-load_bytes zero a n = ap₂ (load_bytes m) (omega arith) (omega arith)
  drop-load_bytes (suc k) a zero = let e : 0 - suc k ≡ 0 = omega arith in rw e
  drop-load_bytes (suc k) a (suc n) =
      drop-load_bytes k (a + 1) n ∙ ap₂ (load_bytes m) (omega arith) (omega arith)

  take-load_bytes : (k a n : ℕ) → take k (load_bytes m a n) ≡ load_bytes m a (min k n)
  unfolding load_bytes
  take-load_bytes zero a n = let e : min 0 n ≡ 0 = omega arith in rw e
  take-load_bytes (suc k) a zero = let e : min (suc k) 0 ≡ 0 = omega arith in rw e
  take-load_bytes (suc k) a (suc n) =
      let e : min (suc k) (suc n) ≡ suc (min k n) = omega arith in
      rw e (ap (λ l. m (a % 2 ^ 32) ∷ l) (take-load_bytes k (a + 1) n))

-- The function from the two branches of its bounds checks.
initrd_read_past :
    (s : Initrd) (inode offset size : ℕ) (h : FileHeader)
    → get_elem? s.file_headers inode ≡ some h
    → h.length < offset
    → initrd_read s inode offset size ≡ some []
unfolding initrd_read
initrd_read_past s inode offset size h e past = ground arith

initrd_read_inside :
    (s : Initrd) (inode offset size : ℕ) (h : FileHeader)
    → get_elem? s.file_headers inode ≡ some h
    → offset ≤ h.length
    → initrd_read s inode offset size
      ≡ some (load_bytes s.memory (h.offset + offset) (clamp h.length offset size))
unfolding initrd_read
initrd_read_inside s inode offset size h e inside = ground arith

-- As long as offset + size does not wrap around, `initrd_read` returns exactly the bytes of the file
-- from the offset on, at most `size` of them, and none from behind its end.
pub initrd_read-slice :
    (s : Initrd) (inode offset size : ℕ) (h : FileHeader)
    → get_elem? s.file_headers inode ≡ some h
    → offset + size < 2 ^ 32
    → initrd_read s inode offset size ≡ some (take size (drop offset (contents s h)))
initrd_read-slice s inode offset size h e fits = elim (Bool-cases (ltb h.length offset)) [
  | inl p ↦
      let z : min size (h.length - offset) ≡ 0 = omega (arith, ltb→lt h.length offset p) in
      initrd_read_past s inode offset size h e (ltb→lt h.length offset p)
      ∙ ap some (sym (slice ∙ ap (load_bytes s.memory (h.offset + offset)) z ∙ nothing))
  | inr p ↦
      initrd_read_inside s inode offset size h e (ground arith)
      ∙ ap (λ n. some (load_bytes s.memory (h.offset + offset) n)) (ground arith)
      ∙ ap some (sym slice)
]
  where
    slice :
        take size (drop offset (contents s h))
        ≡ load_bytes s.memory (h.offset + offset) (min size (h.length - offset))
    slice =
        ap (take size) (drop-load_bytes s.memory offset h.offset h.length)
        ∙ take-load_bytes s.memory size (h.offset + offset) (h.length - offset)

    nothing : load_bytes s.memory (h.offset + offset) 0 ≡ []
    nothing = unfold load_bytes in refl

-- Where offset + size wraps around to a number within the file, the clamp is passed over, and more
-- bytes are copied than the file has left.
pub initrd_read_wraps :
    (s : Initrd) (inode offset size : ℕ) (h : FileHeader)
    → get_elem? s.file_headers inode ≡ some h
    → offset ≤ h.length
    → h.length < 2 ^ 32
    → size < 2 ^ 32
    → 2 ^ 32 ≤ offset + size
    → (bytes : List ℕ) × (initrd_read s inode offset size ≡ some bytes)
      × (length bytes ≡ size)
      × (h.length - offset < length bytes)
initrd_read_wraps s inode offset size h e inside short small wraps =
    let b = load_bytes s.memory (h.offset + offset) size in
    let n = length-load_bytes s.memory (h.offset + offset) size in
    (
      b,
      initrd_read_inside s inode offset size h e inside
          ∙ ap (λ n. some (load_bytes s.memory (h.offset + offset) n)) (ground arith),
      n,
      omega arith,
    )
