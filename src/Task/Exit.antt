-- ===== src/Task/Exit.antt =====
-- `task_exit` and `task_exit_pid`: which task is unlinked, and what stops them.
use os_implement.Prelude.{
  ℕ, zero, suc, ◌<◌, ◌≡◌, ◌≢◌, refl, sym, ap, ◌∙◌, none, List, [], ◌∷◌, arith, length, Option,
  ==_ne, All, All-intro,
}
use os_implement.Paging.{PageDir}
use os_implement.Malloc.{Kernel}
use os_implement.Task.{
  Regs, Task, Tasks, head_task, unlink, unlink_from_head, task_exit, task_exit_pid,
}
use os_implement.Task.Table.{IsTable, addr_at, addr_at_ne, head_task-addr_at}
use os_implement.Task.Switch.{IsRunning}

-- The list without the task at a place.
abbrev pub erase_at : ℕ → List Task → List Task
erase_at i [] = []
erase_at zero (t ∷ ts) = ts
erase_at (suc i) (t ∷ ts) = t ∷ erase_at i ts

-- The walk stops before the first task behind the head that has the key.
module _ (key : Task → ℕ) (k : ℕ) where
  unlink-none : (x : Task) (xs : List Task) → All (λ v. key v ≢ k) xs → unlink key k x xs ≡ none
  unfolding unlink
  unlink-none x [] h = refl
  unlink-none x (y ∷ ys) h = rw (==_ne (key y) k h.0, unlink-none y ys h.1)

exit_fault :
    (dirs : ℕ → Option PageDir) (s : Tasks) (k : Kernel)
    → head_task s.list ≢ 0
    → s.cur_task ≢ 0
    → unlink_from_head (λ t. t.addr) s.cur_task s.list ≡ none
    → task_exit dirs s k ≡ none
unfolding task_exit
exit_fault dirs s k h c e = ground (arith, e)

tail_apart : (x : Task) (xs : List Task) → IsTable (x ∷ xs) → All (λ v. v.addr ≢ x.addr) xs
tail_apart x xs ok =
    All-intro (λ (v : Task). v.addr ≢ x.addr) xs
      (λ i v p e. absurd (omega (arith, ok.apart (suc i) 0 v x p refl e)))

head_not_found :
    (ts : List Task)
    → IsTable ts
    → 0 < length ts
    → unlink_from_head (λ t. t.addr) (addr_at ts 0) ts ≡ none
head_not_found [] ok h = refl
head_not_found (x ∷ xs) ok h = unlink-none (λ t. t.addr) x.addr x xs (tail_apart x xs ok)

-- The first task of the list cannot leave: the walk of `task_exit` for its predecessor runs off the
-- end of the list.
pub task_exit_head :
    (dirs : ℕ → Option PageDir) (s : Tasks) (k : Kernel) → IsRunning s 0 → task_exit dirs s k ≡ none
task_exit_head dirs s k run =
    let ne = addr_at_ne s.list 0 run.table run.inside in
    exit_fault dirs s k (λ z. ne (sym (head_task-addr_at s.list) ∙ z))
      (λ z. ne (sym run.current ∙ z))
      (ap (λ a. unlink_from_head (λ t. t.addr) a s.list) run.current
        ∙ head_not_found s.list run.table run.inside)

-- `task_exit_pid` at a pid that only the first task has, or none: the walk reads the pid of a task
-- through the NULL in the last `next`, before the test for NULL that would print a message.
pub task_exit_pid_missing :
    (pid : ℕ) (r : Regs) (s : Tasks) (x : Task) (xs : List Task)
    → s.cur_task ≢ 0
    → x.addr ≢ 0
    → s.list ≡ x ∷ xs
    → All (λ v. v.pid ≢ pid) xs
    → task_exit_pid pid r s ≡ none
unfolding task_exit_pid
task_exit_pid_missing pid r s x xs c h e none_has =
    let w : unlink_from_head (λ t. t.pid) pid s.list ≡ none =
      ap (unlink_from_head (λ t. t.pid) pid) e ∙ unlink-none (λ t. t.pid) pid x xs none_has in
    let g : head_task s.list ≡ x.addr = ap head_task e in ground (arith, w, g)
