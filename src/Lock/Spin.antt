-- ===== src/Lock/Spin.antt =====
-- How long `spinlock_lock` waits.
use os_implement.Prelude.{ℕ, suc, ◌≡◌, ◌==◌, if◌then◌else◌, some, arith}
use os_implement.Lock.{spinlock_lock, spinlock_locked}

-- Whatever the word is, and with no other thread at it meanwhile, `spinlock_lock` comes back: after
-- the first exchange, or after the second if the word was SPINLOCK_LOCKED. The word is 1 then.
pub spinlock_lock-returns :
    (lock fuel : ℕ)
    → spinlock_lock (if lock == spinlock_locked then suc (suc fuel) else suc fuel) lock ≡ some 1
unfolding spinlock_lock
spinlock_lock-returns lock fuel = ground arith
