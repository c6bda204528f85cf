-- ===== src/Lock.antt =====
-- The spin lock of src/lock.c: its word, and the loop of a thread that takes it.
pub mod Spin
pub mod Race
mod Tests
use os_implement.Prelude.{ℕ, zero, suc, Option, none, some, ◌==◌, if◌then◌else◌}

abbrev pub spinlock_locked : ℕ
spinlock_locked = 0

abbrev pub spinlock_unlocked : ℕ
spinlock_unlocked = 1

-- `xchgl`: the value that the word had, and the new word.
unfoldable pub atomic_test_and_set : ℕ → ℕ × ℕ
atomic_test_and_set lock = (lock, spinlock_unlocked)

-- The loop of `spinlock_lock` with nobody else at the word, and the word after it; `none` means that
-- the fuel ran out.
unfoldable pub spinlock_lock : ℕ → ℕ → Option ℕ
unfolding atomic_test_and_set
spinlock_lock zero lock = none
spinlock_lock (suc fuel) lock =
    let (value, lock') = atomic_test_and_set lock in
    let rest = spinlock_lock fuel lock' in if value == spinlock_locked then rest else some lock'

unfoldable pub spinlock_unlock : ℕ → ℕ
spinlock_unlock lock = 0
