-- ===== src/Startup/Multitask.antt =====
-- `init_multitask` after `init_paging`.
use os_implement.Prelude.{
  ℕ, ◌+◌, ◌-◌, ◌%◌, ◌^◌, ◌≤◌, ◌<◌, ◌≡◌, refl, sym, ap, ◌∙◌, inl, inr, some, [], ◌∷◌, arith,
  get_elem?, length,
}
use os_implement.Paging.{PageDir, Vm}
use os_implement.Paging.Lookup.{IsTables}
use os_implement.Paging.Mapping.{page_at}
use os_implement.Heap.{add32, sub32}
use os_implement.Heap.Bytes.{Memory, IsBytes, IsApart-above}
use os_implement.Task.{Tasks, new_task}
use os_implement.Task.Stack.{Space, move_stack, init_multitask}
use os_implement.Task.Moved.{CanMove, IsMoved, move_stack-IsMoved}
use os_implement.Startup.{Machine}
use os_implement.Paging.Exact.{kernel_page}
use os_implement.Startup.HeapPages.{heap_pages}
use os_implement.Startup.Paged.{IsPaged}
use os_implement.Startup.Main.{space_of}

-- Directories with the same tables find the same entries.
pub page_at-same :
    (p : ℕ) (dir dir' : PageDir) (s : Vm)
    → dir'.page_table ≡ dir.page_table
    → page_at p dir' s ≡ page_at p dir s
unfolding page_at
page_at-same p dir dir' s e = rw e refl

IsTables-same :
    (dir dir' : PageDir) (s : Vm)
    → IsTables dir s
    → dir'.page_table ≡ dir.page_table
    → length dir'.page_table_phy ≡ 1024
    → IsTables dir' s
IsTables-same dir dir' s ok e size = record {
  size = ap length e ∙ ok.size;
  size_phy = size;
  inside = λ i t h. ok.inside i t (ap (λ l. get_elem? l i) (sym e) ∙ h);
  apart = λ i j t h g.
      ok.apart i j t (ap (λ l. get_elem? l i) (sym e) ∙ h) (ap (λ l. get_elem? l j) (sym e) ∙ g);
  full = ok.full;
}

-- The first task.
abbrev pub first_task : ℕ → ℕ → Tasks → Tasks
first_task addr time tasks = record tasks {
  list = record (new_task addr tasks.next_pid tasks.cur_vm_page_dir) { time = time } ∷ [];
  cur_task = addr;
  next_pid = (tasks.next_pid + 1) % 2 ^ 32;
}

init_multitask_step :
    (phy : ℕ → ℕ) (addr time initial_esp esp ebp esp' ebp' : ℕ) (tasks : Tasks) (s s' : Space)
    → move_stack phy 0xe000_0000 0x2000 initial_esp esp ebp s ≡ some (esp', ebp', s')
    → init_multitask phy addr time initial_esp esp ebp tasks s
      ≡ some (esp', ebp', first_task addr time tasks, s')
unfolding init_multitask
init_multitask_step phy addr time initial_esp esp ebp esp' ebp' tasks s s' e = rw e

-- The stack that the loader gave to the kernel.
pub record IsLoaded (initial_esp esp : ℕ) : Type 0 where
  pub down : esp ≤ initial_esp
  pub short : initial_esp - esp < 0x2000
  pub low : initial_esp ≤ 0xc000_0000

paged-CanMove :
    (initial_esp esp N : ℕ) (s s' : Machine) (memory : Memory)
    → IsPaged s N s'
    → IsBytes memory
    → s.kernel.placement_address ≤ 0xe0_0000
    → IsLoaded initial_esp esp
    → CanMove 0xdfffd 2 (N + heap_pages) initial_esp esp (space_of s' memory)
paged-CanMove initial_esp esp N s s' memory ok bytes low stack = record {
  down = stack.down;
  short = stack.short;
  small = omega (arith, stack.low);
  above = omega arith;
  some_used = omega arith;
  few = omega (arith, ok.tight, ok.few);
  apart = IsApart-above (omega (arith, stack.low, stack.down)) (omega arith);
  bytes = bytes;
  tables =
      IsTables-same s'.vm_page_dir s'.kernel.cur_vm_page_dir s'.vm ok.tables ok.shares ok.size_phy;
  exact = ok.exact;
  vacant = λ j small.
      let e =
        page_at-same (0xdfffd + 1 + j) s'.vm_page_dir s'.kernel.cur_vm_page_dir s'.vm ok.shares in
      elim (ok.above (0xdfffd + 1 + j) (omega (arith, ok.tight, ok.few)) (inr (omega arith))) [
        | inl v ↦ inl (e ∙ v)
        | inr v ↦ inr (e ∙ v)
      ];
}

pub init_multitask-IsMoved :
    (phy : ℕ → ℕ) (addr time initial_esp esp ebp N : ℕ) (tasks : Tasks) (s s' : Machine)
    (memory : Memory)
    → IsPaged s N s'
    → IsBytes memory
    → s.kernel.placement_address ≤ 0xe0_0000
    → IsLoaded initial_esp esp
    → (space : Space) × (init_multitask phy addr time initial_esp esp ebp tasks (space_of s' memory)
        ≡ some (
          0xe000_0000 - (initial_esp - esp),
          add32 ebp (sub32 0xe000_0000 initial_esp),
          first_task addr time tasks,
          space,
        ))
      × IsMoved 0xdfffd 2 (N + heap_pages) initial_esp esp (space_of s' memory) space
      × ((p : ℕ) → p < N → page_at p space.dir space.vm ≡ some (kernel_page p))
init_multitask-IsMoved phy addr time initial_esp esp ebp N tasks s s' memory ok bytes low stack =
    let (space, e, moved) =
      move_stack-IsMoved phy 0xdfffd 2 (N + heap_pages) initial_esp esp ebp (space_of s' memory)
        (paged-CanMove initial_esp esp N s s' memory ok bytes low stack) in
    (
      space,
      init_multitask_step phy addr time initial_esp esp ebp _ _ tasks (space_of s' memory) space e,
      moved,
      λ p small. moved.pages.kept p (kernel_page p) (inl (omega (arith, ok.tight, ok.few))) (
          page_at-same p s'.vm_page_dir s'.kernel.cur_vm_page_dir s'.vm ok.shares ∙ ok.low p small),
    )
