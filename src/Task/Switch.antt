-- ===== src/Task/Switch.antt =====
-- One `task_switch`: round robin over the list, with the registers saved and restored.
use os_implement.Prelude.{
  ℕ, suc, ◌+◌, ◌%◌, ◌<◌, ◌≡◌, ◌≢◌, inl, inr, refl, sym, ap, ◌∙◌, false, some, List, ◌==◌, ltb,
  ltb→lt, if◌then◌else◌, arith, length, get_elem?, get_elem?_lt, ==_iff, ==_ne, Bool-cases,
  eq_of_some,
}
use native.Mathlib.Nat.{mod-eq_of_lt, mod-lt}
use os_implement.Task.{
  Regs, Task, Tasks, jump, resumed, head_task, task_at, next_of, update, save, resume, task_switch,
}
use os_implement.Task.Table.{
  IsTable, addr_at, task_at-place, next_of-place, update-place, addr_at-place, addr_at_end,
  IsTable-update, length-update, head_task-addr_at, addr_at_ne,
}

-- The current task stands at place i of the list.
pub record IsRunning (s : Tasks) (i : ℕ) : Type 0 where
  pub table : IsTable s.list
  pub inside : i < length s.list
  pub current : s.cur_task ≡ addr_at s.list i

-- The place of the next task in turn.
abbrev pub turn : Tasks → ℕ → ℕ
turn s i = (i + 1) % length s.list

-- The address that `task_switch` goes on with is that of the next task in turn.
next_address :
    (s : Tasks) (i : ℕ)
    → IsRunning s i
    → (let n = addr_at s.list (suc i) in if n == 0 then head_task s.list else n)
      ≡ addr_at s.list (turn s i)
next_address s i run = elim (Bool-cases (ltb (suc i) (length s.list))) [
  | inl h ↦
      let e : turn s i ≡ suc i = omega (
        arith,
        mod-eq_of_lt {n = i + 1} {m = length s.list}
            (omega (arith, ltb→lt (suc i) (length s.list) h)),
      ) in
      rw (==_ne _ 0 (addr_at_ne s.list (suc i) run.table (ltb→lt (suc i) (length s.list) h)), e)
  | inr h ↦
      let e : length s.list ≡ suc i = ground (arith, run.inside) in
      let z : addr_at s.list (suc i) ≡ 0 = rw (← e) (addr_at_end s.list) in
      let e' : turn s i ≡ 0 = rw e (mod_self i) in rw (z, e') (head_task-addr_at s.list)
]
  where
    mod_self : (i : ℕ) → (i + 1) % suc i ≡ 0
    mod_self i = grind arith

-- What the task that is switched to looks like: the one that was saved, if it is the only one.
abbrev pub switched : Regs → Tasks → ℕ → Task → Task
switched r s i u = if turn s i == i then save r u else u

-- The steps of `task_switch` and `resume`, each from what it looks up.
task_switch_step :
    (r : Regs) (s : Tasks) (n : ℕ)
    → (s.cur_task == 0) ≡ false
    → (r.eip == resumed) ≡ false
    → next_of s.list s.cur_task ≡ some n
    → task_switch r s
      ≡ resume
          (if n == 0 then head_task s.list else n)
          (record s { list = update (save r) s.list s.cur_task })
unfolding task_switch
task_switch_step r s n c e h = ground arith

pub resume_step :
    (a : ℕ) (s : Tasks) (t : Task)
    → task_at s.list a ≡ some t
    → resume a s
      ≡ some (jump t.page_dir t.regs, record s { cur_task = a; cur_vm_page_dir = t.page_dir })
unfolding resume
resume_step a s t h = ground arith

-- Where the eip read is not the mark of a resumed task, `task_switch` from the task at place i saves the registers and a tick in that task, makes the next
-- task of the list the current one (the first after the last), and jumps to it with the page
-- directory and the registers that were saved in it.
pub task_switch-turn :
    (r : Regs) (s : Tasks) (i : ℕ) (u : Task)
    → IsRunning s i
    → r.eip ≢ resumed
    → get_elem? s.list (turn s i) ≡ some u
    → (s' : Tasks) × (task_switch r s
        ≡ some (jump (switched r s i u).page_dir (switched r s i u).regs, s'))
      × IsRunning s' (turn s i)
      × (s'.cur_vm_page_dir ≡ u.page_dir)
      × (length s'.list ≡ length s.list)
      × ((j : ℕ) (t : Task)
          → get_elem? s.list j ≡ some t
          → get_elem? s'.list j ≡ some (if j == i then save r t else t))
task_switch-turn r s i u run fresh next = (
  record s { list = list; cur_task = u.addr; cur_vm_page_dir = (switched r s i u).page_dir },
  task_switch_step r s (addr_at s.list (suc i)) (==_ne s.cur_task 0 somewhere)
        (==_ne r.eip resumed fresh) (ap (next_of s.list) c ∙ next_of-place s.list i t run.table p)
      ∙ ap (λ a. resume a (record s { list = update (save r) s.list s.cur_task }))
          (next_address s i run ∙ addr_at-place s.list (turn s i) u next)
      ∙ ap (λ a. resume u.addr (record s { list = update (save r) s.list a })) c
      ∙ resume_step u.addr (record s { list = list }) (switched r s i u) found,
  record {
    table = table;
    inside = omega (arith, size, mod-lt (i + 1) {m = length s.list} (omega (arith, run.inside)));
    current = sym (addr_at-place list (turn s i) (switched r s i u) there ∙ same_addr);
  },
  ground arith,
  size,
  λ j v q. changed j v q,
)
  where
    t : Task
    t = (get_elem?_lt s.list i run.inside).0

    p : get_elem? s.list i ≡ some t
    p = (get_elem?_lt s.list i run.inside).1

    c : s.cur_task ≡ t.addr
    c = run.current ∙ addr_at-place s.list i t p

    somewhere : s.cur_task ≢ 0
    somewhere z = run.table.placed i t p (sym c ∙ z)

    list : List Task
    list = update (save r) s.list t.addr

    table : IsTable list
    table = IsTable-update (save r) (λ t. refl) s.list i t run.table p

    size : length list ≡ length s.list
    size = length-update (save r) s.list t.addr

    same_addr : (switched r s i u).addr ≡ u.addr
    same_addr = ground arith

    changed :
        (j : ℕ) (v : Task)
        → get_elem? s.list j ≡ some v
        → get_elem? list j ≡ some (if j == i then save r v else v)
    changed j v q = elim (Bool-cases (j == i)) [
      | inl e ↦
          let e' : j ≡ i = (==_iff j i).0 e in
          let same : t ≡ v = eq_of_some (sym p ∙ ap (get_elem? s.list) (sym e') ∙ q) in
          update-place (save r) s.list i j t run.table p ∙ ground (arith, e, same)
      | inr d ↦ update-place (save r) s.list i j t run.table p ∙ ground (arith, d, q)
    ]

    there : get_elem? list (turn s i) ≡ some (switched r s i u)
    there = changed (turn s i) u next

    found : task_at list u.addr ≡ some (switched r s i u)
    found =
        ap (task_at list) (sym same_addr)
        ∙ task_at-place list (turn s i) (switched r s i u) table there
