-- ===== src/Task/Table.antt =====
-- Finding and changing tasks by address, in terms of their place in the list.
use os_implement.Prelude.{
  ℕ, zero, suc, ◌<◌, ◌≡◌, ◌≢◌, inl, inr, refl, sym, ap, ◌∙◌, false, some, List, [], ◌∷◌, ◌==◌,
  if◌then◌else◌, arith, length, get_elem?, get_elem?_lt, ==_iff, ==_refl, ==_ne, Bool-cases,
  eq_of_some,
}
use os_implement.Task.{Task, head_task, task_at, next_of, update}

-- No two tasks of the list have the same address, and none is at NULL.
pub record IsTable (ts : List Task) : Type 0 where
  pub apart :
      (i j : ℕ) (t u : Task)
      → get_elem? ts i ≡ some t
      → get_elem? ts j ≡ some u
      → t.addr ≡ u.addr
      → i ≡ j
  pub placed : (i : ℕ) (t : Task) → get_elem? ts i ≡ some t → t.addr ≢ 0

-- The address at a place, NULL behind the end.
abbrev pub addr_at : List Task → ℕ → ℕ
addr_at [] i = 0
addr_at (t ∷ ts) zero = t.addr
addr_at (t ∷ ts) (suc i) = addr_at ts i

IsTable-tail : (t : Task) (ts : List Task) → IsTable (t ∷ ts) → IsTable ts
IsTable-tail t ts ok = record {
  apart = λ i j u v p q e. omega (arith, ok.apart (suc i) (suc j) u v p q e);
  placed = λ i u p. ok.placed (suc i) u p;
}

-- A task behind the first one has another address.
other_addr :
    (t u : Task) (ts : List Task) (i : ℕ)
    → IsTable (t ∷ ts)
    → get_elem? ts i ≡ some u
    → (t.addr == u.addr) ≡ false
other_addr t u ts i ok p =
    ==_ne t.addr u.addr (λ e. absurd (omega (arith, ok.apart 0 (suc i) t u refl p e)))

pub task_at-place :
    (ts : List Task) (i : ℕ) (t : Task)
    → IsTable ts
    → get_elem? ts i ≡ some t
    → task_at ts t.addr ≡ some t
unfolding task_at
task_at-place [] i t ok p = cc
task_at-place (x ∷ xs) zero t ok p = let e : x ≡ t = eq_of_some p in rw (e, ==_refl t.addr)
task_at-place (x ∷ xs) (suc i) t ok p =
    rw (other_addr x t xs i ok p) (task_at-place xs i t (IsTable-tail x xs ok) p)

pub next_of-place :
    (ts : List Task) (i : ℕ) (t : Task)
    → IsTable ts
    → get_elem? ts i ≡ some t
    → next_of ts t.addr ≡ some (addr_at ts (suc i))
unfolding next_of
next_of-place [] i t ok p = cc
next_of-place (x ∷ []) zero t ok p = let e : x ≡ t = eq_of_some p in rw (e, ==_refl t.addr)
next_of-place (x ∷ y ∷ ys) zero t ok p = let e : x ≡ t = eq_of_some p in rw (e, ==_refl t.addr)
next_of-place (x ∷ xs) (suc i) t ok p =
    rw (other_addr x t xs i ok p) (next_of-place xs i t (IsTable-tail x xs ok) p)

pub update-place :
    (f : Task → Task) (ts : List Task) (i j : ℕ) (t : Task)
    → IsTable ts
    → get_elem? ts i ≡ some t
    → get_elem? (update f ts t.addr) j ≡ (if j == i then some (f t) else get_elem? ts j)
unfolding update
update-place f [] i j t ok p = cc
update-place f (x ∷ xs) zero zero t ok p = let e : x ≡ t = eq_of_some p in rw (e, ==_refl t.addr)
update-place f (x ∷ xs) zero (suc j) t ok p =
    let e : x ≡ t = eq_of_some p in rw (e, ==_refl t.addr) (ground arith)
update-place f (x ∷ xs) (suc i) zero t ok p = rw (other_addr x t xs i ok p) (ground arith)
update-place f (x ∷ xs) (suc i) (suc j) t ok p =
    rw (other_addr x t xs i ok p) (update-place f xs i j t (IsTable-tail x xs ok) p ∙ ground arith)

pub length-update : (f : Task → Task) (ts : List Task) (a : ℕ) → length (update f ts a) ≡ length ts
unfolding update
length-update f [] a = refl
length-update f (x ∷ xs) a = ground (arith, length-update f xs a)

pub addr_at-place :
    (ts : List Task) (i : ℕ) (t : Task) → get_elem? ts i ≡ some t → addr_at ts i ≡ t.addr
addr_at-place [] i t p = cc
addr_at-place (x ∷ xs) zero t p = ap (λ (u : Task). u.addr) (eq_of_some p)
addr_at-place (x ∷ xs) (suc i) t p = addr_at-place xs i t p

pub addr_at_end : (ts : List Task) → addr_at ts (length ts) ≡ 0
addr_at_end [] = refl
addr_at_end (x ∷ xs) = addr_at_end xs

-- A change that keeps the addresses keeps the table.
module _ (f : Task → Task) (keeps : (t : Task) → (f t).addr ≡ t.addr) where
  -- The task at a place after the change, by its address.
  updated :
      (ts : List Task) (i j : ℕ) (t v : Task)
      → IsTable ts
      → get_elem? ts i ≡ some t
      → get_elem? (update f ts t.addr) j ≡ some v
      → (u : Task) × (get_elem? ts j ≡ some u) × (u.addr ≡ v.addr)
  updated ts i j t v ok p q = elim (Bool-cases (j == i)) [
    | inl e ↦
        let e' : j ≡ i = (==_iff j i).0 e in
        let w = update-place f ts i j t ok p in
        let z : f t ≡ v = ground (arith, w, e) in
        (t, rw e' p, sym (keeps t) ∙ ap (λ (u : Task). u.addr) z)
    | inr d ↦ (v, ground (arith, update-place f ts i j t ok p, d), refl)
  ]

  pub IsTable-update :
      (ts : List Task) (i : ℕ) (t : Task)
      → IsTable ts
      → get_elem? ts i ≡ some t
      → IsTable (update f ts t.addr)
  IsTable-update ts i t ok p = record {
    apart = λ j k u v q r e.
        let (u', q', a) = updated ts i j t u ok p q in
        let (v', r', b) = updated ts i k t v ok p r in ok.apart j k u' v' q' r' (a ∙ e ∙ sym b);
    placed = λ j u q z. let (u', q', a) = updated ts i j t u ok p q in ok.placed j u' q' (a ∙ z);
  }

pub head_task-addr_at : (ts : List Task) → head_task ts ≡ addr_at ts 0
head_task-addr_at [] = refl
head_task-addr_at (x ∷ xs) = refl

pub addr_at_ne : (ts : List Task) (i : ℕ) → IsTable ts → i < length ts → addr_at ts i ≢ 0
addr_at_ne ts i ok h z =
    let (t, p) = get_elem?_lt ts i h in ok.placed i t p (sym (addr_at-place ts i t p) ∙ z)
