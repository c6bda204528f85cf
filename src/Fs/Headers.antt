-- ===== src/Fs/Headers.antt =====
-- The file headers of the ramdisk in memory, `initrd_file_header_t` of src/initrd.h.
use os_implement.Prelude.{ℕ, zero, suc, ◌+◌, ◌*◌, ◌%◌, ◌^◌, ◌≤◌, ◌≡◌, refl, ap, ◌∙◌, ◌∷◌, arith}
use mathlib.Core.Path.{ap₂}
use os_implement.Heap.Bytes.{Memory, IsKept, load8, load32, load32-IsKept}
use os_implement.Fs.Initrd.{load_bytes, rounds_of, file_header_at, headers_at, headers_in}

-- The headers below a bound are the same in memories that are the same there.
module _ (bound : ℕ) (m m' : Memory) (low : bound ≤ 2 ^ 32) (kept : IsKept bound m m') where
  load_bytes-IsKept : (n a : ℕ) → a + n ≤ bound → load_bytes m' a n ≡ load_bytes m a n
  unfolding load_bytes
  load_bytes-IsKept zero a h = refl
  load_bytes-IsKept (suc n) a h =
      ap₂ ◌∷◌ (kept (a % 2 ^ 32) (omega arith)) (load_bytes-IsKept n (a + 1) (omega arith))

  file_header_at-IsKept : (a : ℕ) → a + 76 ≤ bound → file_header_at m' a ≡ file_header_at m a
  unfolding file_header_at load8
  file_header_at-IsKept a h =
      rw
        (
          kept (a % 2 ^ 32) (omega arith),
          load_bytes-IsKept 64 (a + 1) (omega arith),
          load32-IsKept bound (a + 68) m m' low (omega arith) kept,
          load32-IsKept bound (a + 72) m m' low (omega arith) kept,
        )
        refl

  headers_at-IsKept : (n a : ℕ) → a + 76 * n ≤ bound → headers_at m' a n ≡ headers_at m a n
  unfolding headers_at
  headers_at-IsKept zero a h = refl
  headers_at-IsKept (suc n) a h =
      ap₂ ◌∷◌ (file_header_at-IsKept a (omega arith)) (headers_at-IsKept n (a + 76) (omega arith))

  pub headers_in-IsKept :
      (loc : ℕ)
      → loc + 4 + 76 * rounds_of (load32 m loc) ≤ bound
      → headers_in m' loc ≡ headers_in m loc
  headers_in-IsKept loc h =
      ap (λ n. headers_at m' (loc + 4) (rounds_of n))
        (load32-IsKept bound loc m m' low (omega arith) kept)
      ∙ headers_at-IsKept (rounds_of (load32 m loc)) (loc + 4) h
