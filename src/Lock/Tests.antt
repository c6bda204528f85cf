-- ===== src/Lock/Tests.antt =====
-- Two threads at a lock whose word is 0.
use os_implement.Prelude.{◌≡◌, arith}
use os_implement.Lock.Race.{Threads, Reach, at_start, holding, two_holders}

two_holders_example :
    (t : Threads) × Reach (at_start 0) t × (t.phase 1 ≡ holding) × (t.phase 2 ≡ holding)
two_holders_example = two_holders 0 1 2 (λ e. omega arith)
