-- ===== src/Task.antt =====
-- The processes of src/task.c. The list is the one that `next` links from head_task on, in that
-- order; a task is known by the address of its pcb_t, and NULL is 0. `none` is an access through
-- NULL, or through cur_task where it points to no task of the list. The registers that inline
-- assembly reads are arguments, and a switch ends in a `jump` with the registers that it loads.
-- `state` and `context` of pcb_t are never read, and are left out.
pub mod Table
pub mod Switch
pub mod Rounds
pub mod Fork
pub mod Exit
pub mod Stack
pub mod Relocate
pub mod StackPages
pub mod Moved
mod Tests
use os_implement.Prelude.{
  ◌>>=◌, ℕ, zero, suc, ◌+◌, ◌%◌, ◌^◌, ◌||◌, Option, none, some, List, [], ◌∷◌, ◌++◌, ◌==◌,
  if◌then◌else◌,
}
use os_implement.Paging.{PageDir, free_all_page}
use os_implement.Malloc.{Kernel, kfree}

-- What a switch saves and restores.
pub record Regs : Type 0 where
  pub esp : ℕ
  pub ebp : ℕ
  pub eip : ℕ

-- `pcb_t`, with its address.
pub record Task : Type 0 where
  pub addr : ℕ
  pub pid : ℕ
  pub regs : Regs
  pub page_dir : ℕ
  pub time : ℕ

pub record Tasks : Type 0 where
  pub list : List Task
  pub cur_task : ℕ
  pub next_pid : ℕ
  pub cur_vm_page_dir : ℕ

-- How a function that switches ends: it returns, or jumps with a page directory and registers.
-- After a jump eax holds the mark 0x12345.
pub data End : Type 0 where
  back : End
  jump : ℕ → Regs → End

abbrev pub resumed : ℕ
resumed = 0x12345

-- head_task
abbrev pub head_task : List Task → ℕ
head_task [] = 0
head_task (t ∷ ts) = t.addr

-- The task at an address, and the address in its `next`.
unfoldable pub task_at : List Task → ℕ → Option Task
task_at [] a = none
task_at (t ∷ ts) a = if t.addr == a then some t else task_at ts a

unfoldable pub next_of : List Task → ℕ → Option ℕ
next_of [] a = none
next_of (t ∷ ts) a = if t.addr == a then some (head_task ts) else next_of ts a

-- A write to the fields of the task at an address.
unfoldable pub update : (Task → Task) → List Task → ℕ → List Task
update f [] a = []
update f (t ∷ ts) a = if t.addr == a then f t ∷ ts else t ∷ update f ts a

abbrev pub save : Regs → Task → Task
save r t = record t { regs = r; time = (t.time + 1) % 2 ^ 32 }

-- Make the task at an address the current one, and jump to it.
unfoldable pub resume : ℕ → Tasks → Option (End × Tasks)
resume a s = elim (task_at s.list a) [
  | none ↦ none
  | some t ↦ some (jump t.page_dir t.regs, record s { cur_task = a; cur_vm_page_dir = t.page_dir })
]

-- `task_switch`, with the registers that it reads.
unfoldable pub task_switch : Regs → Tasks → Option (End × Tasks)
task_switch r s =
    if s.cur_task == 0
    then some (back, s)
    else if r.eip == resumed
    then some (back, s)
    else elim (next_of s.list s.cur_task) [
      | none ↦ none
      | some n ↦
          resume (if n == 0 then head_task s.list else n)
            (record s { list = update (save r) s.list s.cur_task })
    ]

-- The `pcb_t` that `fork` fills in, before it knows the registers.
abbrev pub new_task : ℕ → ℕ → ℕ → Task
new_task addr pid page_dir = record {
  addr = addr;
  pid = pid;
  regs = record { esp = 0; ebp = 0; eip = 0 };
  page_dir = page_dir;
  time = 0;
}

-- `fork` up to `read_eip`, with the directory that `clone_dir` and the address that `_malloc_s`
-- returned. The walk to the end of the list starts with a read through head_task.
unfoldable pub fork_begin : ℕ → ℕ → Tasks → Option Tasks
fork_begin dir addr s =
    if head_task s.list == 0
    then none
    else some (record s {
      list = s.list ++ (new_task addr s.next_pid dir ∷ []);
      next_pid = (s.next_pid + 1) % 2 ^ 32;
    })

-- `fork` behind `read_eip`, which returns once for the parent and again when the child is switched
-- to. `pid` is new_task->pid.
unfoldable pub fork_return : ℕ → ℕ → ℕ → Regs → Tasks → ℕ × Tasks
fork_return parent_task addr pid r s =
    if s.cur_task == parent_task
    then (pid, record s { list = update (λ t. record t { regs = r }) s.list addr })
    else (0, s)

unfoldable pub fork : ℕ → ℕ → Regs → Tasks → Option (ℕ × Tasks)
unfolding fork_begin fork_return
fork dir addr r s = elim (fork_begin dir addr s) [
  | none ↦ none
  | some s' ↦ some (fork_return s.cur_task addr s.next_pid r s')
]

unfoldable pub getpid : Tasks → Option ℕ
getpid s = elim (task_at s.list s.cur_task) [ none ↦ none | some t ↦ some t.pid ]

-- The walk `while (t->next != cur_task) t = t->next`, from a task on, and the list without the task
-- that it stops before: the task before, the task unlinked and the new list.
unfoldable pub unlink : (Task → ℕ) → ℕ → Task → List Task → Option (Task × Task × List Task)
unlink key k t [] = none
unlink key k t (u ∷ us) =
    let rest = unlink key k u us in
    if key u == k
    then some (t, u, t ∷ us)
    else elim rest [ none ↦ none | some (before, gone, list) ↦ some (before, gone, t ∷ list) ]

abbrev pub unlink_from_head : (Task → ℕ) → ℕ → List Task → Option (Task × Task × List Task)
unlink_from_head key k [] = none
unlink_from_head key k (t ∷ ts) = unlink key k t ts

-- `task_exit`, with the directories at the addresses in the pcbs and the variables of kmalloc: the
-- directory of the task that leaves is emptied and its pcb is freed, with the directory of the task
-- before it loaded. `free_all_page` changes frames, which the heap's copy of the paging has too.
unfoldable pub task_exit : (ℕ → Option PageDir) → Tasks → Kernel → Option (End × Tasks × Kernel)
task_exit dirs s k =
    if head_task s.list == 0 || s.cur_task == 0
    then some (back, s, k)
    else elim (unlink_from_head (λ t. t.addr) s.cur_task s.list) [
      | none ↦ none
      | some (t, gone, list) ↦ (do
        next_dir ← dirs t.page_dir
        gone_dir ← dirs gone.page_dir
        heap ← k.kheap
        vm ← free_all_page gone_dir heap.vm
        k' ←
            kfree gone.addr
              (record k { kheap = some (record heap { vm = vm }); cur_vm_page_dir = next_dir })
        some (
          jump t.page_dir t.regs,
          record s { list = list; cur_task = t.addr; cur_vm_page_dir = t.page_dir },
          k',
        ))
    ]

-- `task_exit_pid`. The registers are saved in the current task, which may be the one unlinked; it
-- does not count as a tick.
unfoldable pub task_exit_pid : ℕ → Regs → Tasks → Option (End × Tasks)
task_exit_pid pid r s =
    if head_task s.list == 0 || s.cur_task == 0
    then some (back, s)
    else elim (unlink_from_head (λ t. t.pid) pid s.list) [
      | none ↦ none
      | some (t, gone, list) ↦
          if r.eip == resumed
          then some (back, record s { list = list })
          else resume t.addr
              (record s { list = update (λ u. record u { regs = r }) list s.cur_task })
    ]
