-- ===== src/Heap/Bytes.antt =====
-- Bytes and 32-bit words of memory, as the processor lays them out.
use os_implement.Prelude.{
  ℕ, ◌+◌, ◌*◌, ◌/◌, ◌%◌, ◌^◌, ◌≤◌, ◌<◌, ◌≡◌, ◌⊎◌, ◌==◌, if◌then◌else◌, arith, inl, inr, ==_refl,
}

abbrev pub Memory : Type 0
Memory = ℕ → ℕ

unfoldable pub load8 : Memory → ℕ → ℕ
load8 m a = m (a % 2 ^ 32)

unfoldable pub store8 : Memory → ℕ → ℕ → Memory
store8 m a v i = if i == a % 2 ^ 32 then v % 2 ^ 8 else m i

unfoldable pub load32 : Memory → ℕ → ℕ
unfolding load8
load32 m a =
    load8 m a + 2 ^ 8 * load8 m (a + 1) + 2 ^ 16 * load8 m (a + 2) + 2 ^ 24 * load8 m (a + 3)

unfoldable pub store32 : Memory → ℕ → ℕ → Memory
unfolding store8
store32 m a v =
    store8 (store8 (store8 (store8 m a v) (a + 1) (v / 2 ^ 8)) (a + 2) (v / 2 ^ 16)) (a + 3)
      (v / 2 ^ 24)

-- Two ranges of addresses below 2^32 that have nothing in common.
pub record IsApart (a n b k : ℕ) : Type 0 where
  pub first : a + n ≤ 2 ^ 32
  pub second : b + k ≤ 2 ^ 32
  pub sides : (a + n ≤ b) ⊎ (b + k ≤ a)

-- A range below another, and one above.
pub IsApart-below : {a n b k : ℕ} → a + n ≤ b → b + k ≤ 2 ^ 32 → IsApart a n b k
IsApart-below h l = record { first = omega arith; second = l; sides = inl h }

pub IsApart-above : {a n b k : ℕ} → b + k ≤ a → a + n ≤ 2 ^ 32 → IsApart a n b k
IsApart-above h l = record { first = l; second = omega arith; sides = inr h }

-- Parts of ranges that are apart.
pub IsApart-within :
    {a n b k c i d j : ℕ}
    → IsApart a n b k
    → (a ≤ c) × (c + i ≤ a + n)
    → (b ≤ d) × (d + j ≤ b + k)
    → IsApart c i d j
IsApart-within r p q = record {
  first = omega (arith, r.first);
  second = omega (arith, r.second);
  sides = elim r.sides [ inl e ↦ inl (omega arith) | inr e ↦ inr (omega arith) ];
}

module _ (m : Memory) (a v : ℕ) where
  pub load8-store8_self : load8 (store8 m a v) a ≡ v % 2 ^ 8
  unfolding load8 store8
  load8-store8_self = rw (==_refl (a % 2 ^ 32))

  pub load8-store8_apart : (b : ℕ) → IsApart a 1 b 1 → load8 (store8 m a v) b ≡ load8 m b
  unfolding load8 store8
  load8-store8_apart b r = ground (arith, r.first, r.second, r.sides)

-- What a word written reads back as, and what it leaves alone.
pub load32-store32_self : (m : Memory) (a v : ℕ) → v < 2 ^ 32 → load32 (store32 m a v) a ≡ v
unfolding load32 store32 load8 store8
load32-store32_self m a v h = ground arith

pub load8-store32_apart :
    (m : Memory) (a v b : ℕ) → IsApart a 4 b 1 → load8 (store32 m a v) b ≡ load8 m b
unfolding load8 store32 store8
load8-store32_apart m a v b r = ground (arith, r.first, r.second, r.sides)

pub load32-store8_apart :
    (m : Memory) (a v b : ℕ) → IsApart a 1 b 4 → load32 (store8 m a v) b ≡ load32 m b
unfolding load32 store8 load8
load32-store8_apart m a v b r = ground (arith, r.first, r.second, r.sides)

pub load32-store32_apart :
    (m : Memory) (a v b : ℕ) → IsApart a 4 b 4 → load32 (store32 m a v) b ≡ load32 m b
unfolding load32
load32-store32_apart m a v b r = omega (
  arith,
  load8-store32_apart m a v b (IsApart-within r (omega arith) (omega arith)),
  load8-store32_apart m a v (b + 1) (IsApart-within r (omega arith) (omega arith)),
  load8-store32_apart m a v (b + 2) (IsApart-within r (omega arith) (omega arith)),
  load8-store32_apart m a v (b + 3) (IsApart-within r (omega arith) (omega arith)),
)

-- Every byte is one, and stays one.
abbrev pub IsBytes : Memory → Type 0
IsBytes m = (a : ℕ) → m a < 2 ^ 8

pub store8-IsBytes : (m : Memory) (a v : ℕ) → IsBytes m → IsBytes (store8 m a v)
unfolding store8
store8-IsBytes m a v h i = ground (arith, h i)

pub store32-IsBytes : (m : Memory) (a v : ℕ) → IsBytes m → IsBytes (store32 m a v)
unfolding store32
store32-IsBytes m a v h = store8-IsBytes _ (a + 3) (v / 2 ^ 24) (
    store8-IsBytes _ (a + 2) (v / 2 ^ 16)
      (store8-IsBytes _ (a + 1) (v / 2 ^ 8) (store8-IsBytes m a v h)))

-- The memory below an address is the same.
abbrev pub IsKept : ℕ → Memory → Memory → Type 0
IsKept bound m m' = (a : ℕ) → a < bound → m' a ≡ m a

pub store8-IsKept :
    (bound a v : ℕ) (m m' : Memory)
    → bound ≤ a
    → a < 2 ^ 32
    → IsKept bound m m'
    → IsKept bound m (store8 m' a v)
unfolding store8
store8-IsKept bound a v m m' h l k i small = ground (arith, k i small)

pub store32-IsKept :
    (bound a v : ℕ) (m m' : Memory)
    → bound ≤ a
    → a + 4 ≤ 2 ^ 32
    → IsKept bound m m'
    → IsKept bound m (store32 m' a v)
unfolding store32
store32-IsKept bound a v m m' h l k =
    store8-IsKept bound (a + 3) (v / 2 ^ 24) m _ (omega arith) (omega arith) (
      store8-IsKept bound (a + 2) (v / 2 ^ 16) m _ (omega arith) (omega arith) (
        store8-IsKept bound (a + 1) (v / 2 ^ 8) m _ (omega arith) (omega arith)
          (store8-IsKept bound a v m m' h (omega arith) k)))

pub load32-IsKept :
    (bound a : ℕ) (m m' : Memory)
    → bound ≤ 2 ^ 32
    → a + 4 ≤ bound
    → IsKept bound m m'
    → load32 m' a ≡ load32 m a
unfolding load32 load8
load32-IsKept bound a m m' h l k = omega (
  arith,
  k (a % 2 ^ 32) (omega arith),
  k ((a + 1) % 2 ^ 32) (omega arith),
  k ((a + 2) % 2 ^ 32) (omega arith),
  k ((a + 3) % 2 ^ 32) (omega arith),
)
