-- ===== src/Task/Fork.antt =====
-- `fork`: the child joins the end of the list, and its two returns.
use os_implement.Prelude.{
  ℕ, zero, suc, ◌+◌, ◌%◌, ◌^◌, ◌<◌, ◌≡◌, ◌≢◌, ◌⊎◌, inl, inr, refl, sym, ap, ◌∙◌, some, List, [],
  ◌∷◌, ◌++◌, arith, length, length-append, get_elem?, get_elem?_lt, ==_refl, ==_ne, eq_of_some, All,
}
use os_implement.Task.{
  head_task, Regs, Task, Tasks, new_task, update, fork_begin, fork_return, fork,
}
use os_implement.Task.Table.{IsTable, addr_at, addr_at-place, addr_at_ne, head_task-addr_at}
use os_implement.Task.Switch.{IsRunning}

-- An address that no task of the list has.
abbrev pub IsFreshAddr : ℕ → List Task → Type 0
IsFreshAddr a ts = (a ≢ 0) × All (λ t. t.addr ≢ a) ts

update-append :
    (f : Task → Task) (ts : List Task) (n : Task)
    → All (λ t. t.addr ≢ n.addr) ts
    → update f (ts ++ n ∷ []) n.addr ≡ ts ++ f n ∷ []
unfolding update
update-append f [] n h = rw (==_refl n.addr)
update-append f (t ∷ ts) n h =
    rw (==_ne t.addr n.addr h.0) (ap (λ l. t ∷ l) (update-append f ts n h.1))

-- A place of the longer list is one of the old list, or the last.
append_cases :
    (ts : List Task) (n : Task) (i : ℕ) (t : Task)
    → get_elem? (ts ++ n ∷ []) i ≡ some t
    → (get_elem? ts i ≡ some t) ⊎ ((i ≡ length ts) × (t ≡ n))
append_cases [] n zero t h = inr (refl, sym (eq_of_some h))
append_cases [] n (suc i) t h = cc
append_cases (x ∷ xs) n zero t h = inl h
append_cases (x ∷ xs) n (suc i) t h = elim (append_cases xs n i t h) [
  | inl p ↦ inl p
  | inr (e, p) ↦ inr (ap suc e, p)
]

addr_of_All :
    (a : ℕ) (ts : List Task) (i : ℕ) (t : Task)
    → All (λ t. t.addr ≢ a) ts
    → get_elem? ts i ≡ some t
    → t.addr ≢ a
addr_of_All a [] i t h p = cc
addr_of_All a (x ∷ xs) zero t h p = let e : x ≡ t = eq_of_some p in rw (← e) (h.0)
addr_of_All a (x ∷ xs) (suc i) t h p = addr_of_All a xs i t h.1 p

IsTable-append :
    (ts : List Task) (n : Task) → IsTable ts → IsFreshAddr n.addr ts → IsTable (ts ++ n ∷ [])
IsTable-append ts n ok (ne, new) = record {
  apart = λ i j t u p q e. elim (append_cases ts n i t p) [
    | inl p' ↦ elim (append_cases ts n j u q) [
      | inl q' ↦ ok.apart i j t u p' q' e
      | inr (f, q') ↦ absurd (addr_of_All n.addr ts i t new p' (e ∙ ap (λ (x : Task). x.addr) q'))
    ]
    | inr (f, p') ↦ elim (append_cases ts n j u q) [
      | inl q' ↦ absurd (addr_of_All n.addr ts j u new q' (sym e ∙ ap (λ (x : Task). x.addr) p'))
      | inr (g, q') ↦ omega arith
    ]
  ];
  placed = λ i t p z. elim (append_cases ts n i t p) [
    | inl p' ↦ ok.placed i t p' z
    | inr (f, p') ↦ ne (sym (ap (λ (x : Task). x.addr) p') ∙ z)
  ];
}

addr_at-append :
    (ts : List Task) (n : Task) (i : ℕ) → i < length ts → addr_at (ts ++ n ∷ []) i ≡ addr_at ts i
addr_at-append [] n i h = elim h [ ]
addr_at-append (t ∷ ts) n zero h = refl
addr_at-append (t ∷ ts) n (suc i) h = addr_at-append ts n i (omega arith)

-- Called by a task of the list, with memory for the child at an address that no task has: in the
-- parent `fork` returns the new pid; the child stands last in the list, with the parent's
-- registers and the cloned directory; all other tasks and the current one stay as they are. When a
-- switch has made the child current, the same code returns 0 and changes nothing.
pub fork_lem :
    (dir addr : ℕ) (r : Regs) (s : Tasks) (i : ℕ)
    → IsRunning s i
    → IsFreshAddr addr s.list
    → (s' : Tasks) × (fork dir addr r s ≡ some (s.next_pid, s'))
      × (s'.list ≡ s.list ++ record (new_task addr s.next_pid dir) { regs = r } ∷ [])
      × IsRunning s' i
      × (s'.next_pid ≡ (s.next_pid + 1) % 2 ^ 32)
      × ((r' : Regs) (t : Tasks)
          → t.cur_task ≡ addr
          → fork_return s.cur_task addr s.next_pid r' t ≡ (0, t))
unfolding fork fork_begin fork_return
fork_lem dir addr r s i run new = (
  record s { list = s.list ++ child ∷ []; next_pid = (s.next_pid + 1) % 2 ^ 32 },
  rw (fork, fork_begin, ==_ne (head_task s.list) 0 someone, fork_return, ==_refl s.cur_task)
      (ap (λ l. some (s.next_pid, record s { list = l; next_pid = (s.next_pid + 1) % 2 ^ 32 }))
        (update-append (λ t. record t { regs = r }) s.list (new_task addr s.next_pid dir) new.1)),
  refl,
  record {
    table = IsTable-append s.list child run.table new;
    inside = omega (arith, length-append s.list (child ∷ []), run.inside);
    current = run.current ∙ sym (addr_at-append s.list child i run.inside);
  },
  refl,
  λ r' t e. other r' t e,
)
  where
    child : Task
    child = record (new_task addr s.next_pid dir) { regs = r }

    someone : head_task s.list ≢ 0
    someone z =
        addr_at_ne s.list 0 run.table (omega (arith, run.inside))
          (sym (head_task-addr_at s.list) ∙ z)

    parent_apart : s.cur_task ≢ addr
    parent_apart z =
        let (t, p) = get_elem?_lt s.list i run.inside in
        addr_of_All addr s.list i t new.1 p (sym (run.current ∙ addr_at-place s.list i t p) ∙ z)

    other :
        (r' : Regs) (t : Tasks)
        → t.cur_task ≡ addr
        → fork_return s.cur_task addr s.next_pid r' t ≡ (0, t)
    other r' t e = ground (arith, parent_apart)
