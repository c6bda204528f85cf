-- ===== src/Text/Copy.antt =====
-- `memset` and `memcpy` of src/common.c, on memory.
use os_implement.Prelude.{ℕ, zero, suc, ◌+◌, ◌%◌, ◌^◌, ◌≤◌, ◌<◌, ◌≡◌, refl, ap, ◌∙◌, arith}
use os_implement.Heap.{add32}
use os_implement.Heap.Bytes.{
  Memory, load8, store8, load32, load8-store8_self, load8-store8_apart, IsApart, IsApart-within,
  IsApart-above, IsBytes, IsKept, store8-IsKept,
}

-- memset(h, v, l)
unfoldable pub memset : ℕ → ℕ → ℕ → Memory → Memory
memset h v zero m = m
memset h v (suc l) m = memset (add32 h 1) v l (store8 m h v)

-- memcpy(dest, src, count)
unfoldable pub memcpy : ℕ → ℕ → ℕ → Memory → Memory
memcpy dest src zero m = m
memcpy dest src (suc count) m =
    memcpy (add32 dest 1) (add32 src 1) count (store8 m dest (load8 m src))

memset_next :
    (h v n : ℕ) (m : Memory)
    → h + suc n < 2 ^ 32
    → memset h v (suc n) m ≡ memset (h + 1) v n (store8 m h v)
unfolding memset
memset_next h v n m small = let e : add32 h 1 ≡ h + 1 = omega arith in rw (memset, e) refl

-- The bytes outside of the range are kept, and those inside are all the value.
pub load8-memset_apart :
    (n h v b : ℕ) (m : Memory)
    → h + n < 2 ^ 32
    → IsApart h n b 1
    → load8 (memset h v n m) b ≡ load8 m b
unfolding memset
load8-memset_apart zero h v b m small r = refl
load8-memset_apart (suc n) h v b m small r =
    ap (λ f. load8 f b) (memset_next h v n m small)
    ∙ load8-memset_apart n (h + 1) v b (store8 m h v) (omega arith)
        (IsApart-within r (omega arith) (omega arith))
    ∙ load8-store8_apart m h v b (IsApart-within r (omega arith) (omega arith))

pub load8-memset :
    (n h v k : ℕ) (m : Memory) → h + n < 2 ^ 32 → k < n → load8 (memset h v n m) (h + k) ≡ v % 2 ^ 8
unfolding memset
load8-memset zero h v k m small less = absurd (omega arith)
load8-memset (suc n) h v zero m small less =
    ap (λ f. load8 f (h + 0)) (memset_next h v n m small)
    ∙ load8-memset_apart n (h + 1) v (h + 0) (store8 m h v) (omega arith)
        (IsApart-above (omega arith) (omega arith))
    ∙ ap (load8 (store8 m h v)) (omega arith)
    ∙ load8-store8_self m h v
load8-memset (suc n) h v (suc k) m small less =
    ap (λ f. load8 f (h + suc k)) (memset_next h v n m small)
    ∙ ap (load8 (memset (h + 1) v n (store8 m h v))) (omega arith)
    ∙ load8-memset n (h + 1) v k (store8 m h v) (omega arith) (omega arith)

memcpy_next :
    (dest src n : ℕ) (m : Memory)
    → dest + suc n < 2 ^ 32
    → src + suc n < 2 ^ 32
    → memcpy dest src (suc n) m ≡ memcpy (dest + 1) (src + 1) n (store8 m dest (load8 m src))
unfolding memcpy
memcpy_next dest src n m h l =
    let a : add32 dest 1 ≡ dest + 1 = omega arith in
    let b : add32 src 1 ≡ src + 1 = omega arith in rw (memcpy, a, b) refl

-- The bytes outside of the destination are kept.
pub load8-memcpy_apart :
    (n dest src b : ℕ) (m : Memory)
    → dest + n < 2 ^ 32
    → src + n < 2 ^ 32
    → IsApart dest n b 1
    → load8 (memcpy dest src n m) b ≡ load8 m b
unfolding memcpy
load8-memcpy_apart zero dest src b m h l r = refl
load8-memcpy_apart (suc n) dest src b m h l r =
    let m' = store8 m dest (load8 m src) in
    ap (λ f. load8 f b) (memcpy_next dest src n m h l)
    ∙ load8-memcpy_apart n (dest + 1) (src + 1) b m' (omega arith) (omega arith)
        (IsApart-within r (omega arith) (omega arith))
    ∙ load8-store8_apart m dest (load8 m src) b (IsApart-within r (omega arith) (omega arith))

-- The bytes of the source arrive, where it does not overlap the destination.
pub load8-memcpy :
    (n dest src k : ℕ) (m : Memory)
    → dest + n < 2 ^ 32
    → src + n < 2 ^ 32
    → IsApart dest n src n
    → k < n
    → load8 (memcpy dest src n m) (dest + k) ≡ load8 m (src + k) % 2 ^ 8
unfolding memcpy
load8-memcpy zero dest src k m h l r small = absurd (omega arith)
load8-memcpy (suc n) dest src zero m h l r small =
    let m' = store8 m dest (load8 m src) in
    ap (λ f. load8 f (dest + 0)) (memcpy_next dest src n m h l)
    ∙ load8-memcpy_apart n (dest + 1) (src + 1) (dest + 0) m' (omega arith) (omega arith)
        (IsApart-above (omega arith) (omega arith))
    ∙ ap (load8 m') (omega arith)
    ∙ load8-store8_self m dest (load8 m src)
    ∙ ap (λ a. load8 m a % 2 ^ 8) (omega arith)
load8-memcpy (suc n) dest src (suc k) m h l r small =
    let m' = store8 m dest (load8 m src) in
    ap (λ f. load8 f (dest + suc k)) (memcpy_next dest src n m h l)
    ∙ ap (load8 (memcpy (dest + 1) (src + 1) n m')) (omega arith)
    ∙ load8-memcpy n (dest + 1) (src + 1) k m' (omega arith) (omega arith)
        (IsApart-within r (omega arith) (omega arith)) (omega arith)
    ∙ ap (λ a. load8 m' a % 2 ^ 8) (omega arith)
    ∙ ap (λ v. v % 2 ^ 8)
        (load8-store8_apart m dest (load8 m src) (src + suc k)
          (IsApart-within r (omega arith) (omega arith)))

-- A word of the source.
pub load32-memcpy :
    (n dest src k : ℕ) (m : Memory)
    → IsBytes m
    → dest + n < 2 ^ 32
    → src + n < 2 ^ 32
    → IsApart dest n src n
    → k + 4 ≤ n
    → load32 (memcpy dest src n m) (dest + k) ≡ load32 m (src + k)
unfolding load32
load32-memcpy n dest src k m bytes h l r small =
    let at : (j : ℕ) → j < 4 → load8 (memcpy dest src n m) (dest + k + j) ≡ load8 m (src + k + j) =
      λ j less.
        ap (load8 (memcpy dest src n m)) (omega arith)
        ∙ load8-memcpy n dest src (k + j) m h l r (omega arith)
        ∙ small_byte (src + (k + j))
        ∙ ap (load8 m) (omega arith) in
    omega (
      arith,
      at 1 (omega arith),
      at 2 (omega arith),
      at 3 (omega arith),
      load8-memcpy n dest src k m h l r (omega arith),
      small_byte (src + k),
    )
  where
    small_byte : (a : ℕ) → load8 m a % 2 ^ 8 ≡ load8 m a
    small_byte a = unfold load8 in omega (arith, bytes (a % 2 ^ 32))

pub load32-memcpy_apart :
    (n dest src b : ℕ) (m : Memory)
    → dest + n < 2 ^ 32
    → src + n < 2 ^ 32
    → IsApart dest n b 4
    → load32 (memcpy dest src n m) b ≡ load32 m b
unfolding load32
load32-memcpy_apart n dest src b m h l r =
    let at : (j : ℕ) → j < 4 → load8 (memcpy dest src n m) (b + j) ≡ load8 m (b + j) = λ j less.
      load8-memcpy_apart n dest src (b + j) m h l (IsApart-within r (omega arith) (omega arith)) in
    omega (
      arith,
      at 1 (omega arith),
      at 2 (omega arith),
      at 3 (omega arith),
      load8-memcpy_apart n dest src b m h l (IsApart-within r (omega arith) (omega arith)),
    )

-- A copy keeps the memory below its destination.
pub memcpy-IsKept :
    (bound n dest src : ℕ) (m m' : Memory)
    → bound ≤ dest
    → dest + n < 2 ^ 32
    → IsKept bound m m'
    → IsKept bound m (memcpy dest src n m')
unfolding memcpy
memcpy-IsKept bound zero dest src m m' h l k = k
memcpy-IsKept bound (suc n) dest src m m' h l k =
    memcpy-IsKept bound n (add32 dest 1) (add32 src 1) m (store8 m' dest (load8 m' src))
      (omega arith) (omega arith) (store8-IsKept bound dest (load8 m' src) m m' h (omega arith) k)
