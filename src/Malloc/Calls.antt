-- ===== src/Malloc/Calls.antt =====
-- Sequences of calls of the functions of src/kernel_malloc.c, and the blocks that they return.
use os_implement.Prelude.{
  ℕ, ◌+◌, ◌%◌, ◌≤◌, ◌<◌, ◌≡◌, Bool, true, false, Option, none, some, List, [], ◌∷◌, if◌then◌else◌,
  get_elem?, ◌>>=◌, length,
}
use os_implement.Malloc.{Kernel, malloc_s, malloc_a, malloc_ap}

-- The calls, by the function and the size.
pub data Call : Type 0 where
  plain aligned aligned_phy : ℕ → Call

abbrev pub size_of : Call → ℕ
size_of (plain n) = n
size_of (aligned n) = n
size_of (aligned_phy n) = n

abbrev pub align_of : Call → ℕ
align_of (plain n) = 0
align_of (aligned n) = 1
align_of (aligned_phy n) = 1

abbrev pub wants_phy : Call → Bool
wants_phy (plain n) = false
wants_phy (aligned n) = false
wants_phy (aligned_phy n) = true

unfoldable pub make_call : ℕ → Call → Kernel → Option (ℕ × Option ℕ × Kernel)
unfolding malloc_s malloc_a malloc_ap
make_call fuel (plain n) k = malloc_s fuel n k
make_call fuel (aligned n) k = malloc_a fuel n k
make_call fuel (aligned_phy n) k = malloc_ap fuel n k

-- A sequence of calls, and what each returns: the address, and the physical one where it asks.
unfoldable pub make_calls : ℕ → List Call → Kernel → Option (List (ℕ × Option ℕ) × Kernel)
unfolding make_call
make_calls fuel [] k = some ([], k)
make_calls fuel (c ∷ cs) k = do
  (addr, phy, k') ← make_call fuel c k
  (blocks, k'') ← make_calls fuel cs k'
  some ((addr, phy) ∷ blocks, k'')

-- No more memory is taken, with a page lost for each alignment.
abbrev pub need : List Call → ℕ
need [] = 0
need (c ∷ cs) = size_of c + 0x1000 + need cs

-- The block of a call lies between two addresses, is aligned if the call asks for it, and has its own
-- address as the physical one.
pub record IsBlock (c : Call) (block : ℕ × Option ℕ) (from to : ℕ) : Type 0 where
  pub after : from ≤ block.0
  pub before : block.0 + size_of c ≤ to
  pub aligned : align_of c ≡ 1 → block.0 % 0x1000 ≡ 0
  pub phy : block.1 ≡ (if wants_phy c then some block.0 else none)

-- The blocks of calls: each where it may be, and one behind the other.
pub record AreBlocks (cs : List Call) (blocks : List (ℕ × Option ℕ)) (from to : ℕ) : Type 0 where
  pub size : length blocks ≡ length cs
  pub inside :
      (i : ℕ) (c : Call) (b : ℕ × Option ℕ)
      → get_elem? cs i ≡ some c
      → get_elem? blocks i ≡ some b
      → IsBlock c b from to
  pub apart :
      (i j : ℕ) (c : Call) (a b : ℕ × Option ℕ)
      → i < j
      → get_elem? cs i ≡ some c
      → get_elem? blocks i ≡ some a
      → get_elem? blocks j ≡ some b
      → a.0 + size_of c ≤ b.0
