-- ===== src/Lock/Race.antt =====
-- Threads that take and release the lock in any order.
use os_implement.Prelude.{
  ℕ, ◌≡◌, ◌≢◌, refl, sym, ◌∙◌, ◌==◌, if◌then◌else◌, ==_refl, ==_ne, Bool-cases, inl, inr,
}
use os_implement.Lock.{spinlock_locked, atomic_test_and_set, spinlock_unlock}

-- What a thread does: nothing with the lock, the loop of `spinlock_lock`, or what the lock guards.
pub data Phase : Type 0 where
  idle spinning holding : Phase

pub record Threads : Type 0 where
  pub lock : ℕ
  pub phase : ℕ → Phase

abbrev at : (ℕ → Phase) → ℕ → Phase → ℕ → Phase
at phase i p j = if j == i then p else phase j

-- One exchange by thread i, which leaves the loop unless the value was SPINLOCK_LOCKED.
unfoldable pub exchange : ℕ → Threads → Threads
unfolding atomic_test_and_set
exchange i s =
    let (value, lock) = atomic_test_and_set s.lock in
    record {
      lock = lock;
      phase = at s.phase i (if value == spinlock_locked then spinning else holding);
    }

pub data Step (s : Threads) : Threads → Type 0 where
  enter : (i : ℕ) → s.phase i ≡ idle → Step s (record s { phase = at s.phase i spinning })
  try : (i : ℕ) → s.phase i ≡ spinning → Step s (exchange i s)
  leave :
      (i : ℕ)
      → s.phase i ≡ holding
      → Step s (record { lock = spinlock_unlock s.lock; phase = at s.phase i idle })

pub data Reach (s : Threads) : Threads → Type 0 where
  here : Reach s s
  next : {t u : Threads} → Reach s t → Step t u → Reach s u

abbrev pub at_start : ℕ → Threads
at_start lock = record { lock = lock; phase = λ i. idle }

at_self : (phase : ℕ → Phase) (i : ℕ) (p : Phase) → at phase i p i ≡ p
at_self phase i p = rw (==_refl i)

at_other : (phase : ℕ → Phase) (i j : ℕ) (p : Phase) → j ≢ i → at phase i p j ≡ phase j
at_other phase i j p d = rw (==_ne j i d)

-- A thread in the loop, at any word, comes out of it after two exchanges of its own at most; all
-- other threads stay where they are.
try_twice :
    (i : ℕ) (s : Threads)
    → s.phase i ≡ spinning
    → (t : Threads) × Reach s t × (t.phase i ≡ holding) × ((j : ℕ) → j ≢ i → t.phase j ≡ s.phase j)
unfolding exchange
try_twice i s e = elim (Bool-cases (s.lock == spinlock_locked)) [
  | inr h ↦ (
    exchange i s,
    next here (try i e),
    at_self s.phase i _ ∙ rw h,
    λ j d. at_other s.phase i j _ d,
  )
  | inl h ↦
      let u = exchange i s in
      let f : u.phase i ≡ spinning = at_self s.phase i _ ∙ rw h in
      (
        exchange i u,
        next (next here (try i e)) (try i f),
        at_self u.phase i _,
        λ j d. at_other u.phase i j _ d ∙ at_other s.phase i j _ d,
      )
]

Reach-trans : {s t u : Threads} → Reach s t → Reach t u → Reach s u
Reach-trans r here = r
Reach-trans r (next q st) = next (Reach-trans r q) st

-- From any state a thread that is idle can go on to hold the lock, whoever holds it already.
take_lock :
    (i : ℕ) (s : Threads)
    → s.phase i ≡ idle
    → (t : Threads) × Reach s t × (t.phase i ≡ holding) × ((j : ℕ) → j ≢ i → t.phase j ≡ s.phase j)
take_lock i s e =
    let u = record s { phase = at s.phase i spinning } in
    let (t, r, h, others) = try_twice i u (at_self s.phase i spinning) in
    (
      t,
      Reach-trans (next here (enter i e)) r,
      h,
      λ j d. others j d ∙ at_other s.phase i j spinning d,
    )

-- The lock excludes nobody: whatever its word is at the start, a state can be reached in which two
-- threads hold it.
pub two_holders :
    (lock i j : ℕ)
    → i ≢ j
    → (t : Threads) × Reach (at_start lock) t × (t.phase i ≡ holding) × (t.phase j ≡ holding)
two_holders lock i j d =
    let (s, r, h, others) = take_lock i (at_start lock) refl in
    let (t, q, g, kept) = take_lock j s (others j (λ e. d (sym e))) in
    (t, Reach-trans r q, kept i d ∙ h, g)
