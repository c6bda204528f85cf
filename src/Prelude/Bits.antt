-- ===== src/Prelude/Bits.antt =====
-- Bit operations on small numbers: a law that holds for every value below a bound is checked by
-- evaluation over the whole range.
use Prim.Native.Nat.{ℕ, zero, suc, ◌-◌, ◌<◌}
use mathlib.Core.Path.{◌≡◌}
use mathlib.Core.Bool.{Bool, true, false, ◌&&◌}
use native.Mathlib.Omega.{arith}

-- ~x on 32 bits.
abbrev pub not32 : ℕ → ℕ
not32 x = 0xffff_ffff - x

-- Does a test hold for every number below a bound?
unfoldable pub all_below : ℕ → (ℕ → Bool) → Bool
all_below zero test = true
all_below (suc last) test = all_below last test && test last

-- Equality of truth values, as a test.
abbrev pub iffb : Bool → Bool → Bool
iffb true b = b
iffb false true = false
iffb false false = true

pub iffb→eq : (a b : Bool) → iffb a b ≡ true → a ≡ b
iffb→eq a b h = ground arith

pub all_below_sound :
    (bound : ℕ) (test : ℕ → Bool) (i : ℕ) → all_below bound test ≡ true → i < bound → test i ≡ true
unfolding all_below
all_below_sound zero test i passed inside = elim inside [ ]
all_below_sound (suc last) test i passed inside = ground (arith, all_below_sound last test i)

-- Two and three nested ranges.
pub all_below2_sound :
    (n m : ℕ) (p : ℕ → ℕ → Bool) (x y : ℕ)
    → all_below n (λ a. all_below m (p a)) ≡ true
    → x < n
    → y < m
    → p x y ≡ true
all_below2_sound n m p x y h hx hy =
    all_below_sound m (p x) y (all_below_sound n (λ a. all_below m (p a)) x h hx) hy

pub all_below3_sound :
    (n m k : ℕ) (p : ℕ → ℕ → ℕ → Bool) (x y z : ℕ)
    → all_below n (λ a. all_below m (λ b. all_below k (p a b))) ≡ true
    → x < n
    → y < m
    → z < k
    → p x y z ≡ true
all_below3_sound n m k p x y z h hx hy hz =
    all_below_sound k (p x y) z (all_below2_sound n m (λ a b. all_below k (p a b)) x y h hx hy) hz
