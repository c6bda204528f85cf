-- ===== src/Task/Tests.antt =====
-- Three processes, with the first, the second or the last one running.
use os_implement.Prelude.{
  ℕ, zero, suc, ◌+◌, ◌*◌, ◌%◌, ◌^◌, ◌<◌, ◌≡◌, refl, ◌==◌, if◌then◌else◌, none, some, List, [], ◌∷◌,
  ◌++◌, arith, length, get_elem?, replicate, ◌-◌,
}
use os_implement.Task.{
  Regs, Task, Tasks, back, jump, save, new_task, task_switch, fork, fork_return,
}
use os_implement.Task.Table.{IsTable}
use os_implement.Task.Switch.{IsRunning, turn, switched, task_switch-turn}
use os_implement.Task.Rounds.{switches, IsFresh, switches_round}
use os_implement.Task.Fork.{IsFreshAddr, fork_lem}
use os_implement.Malloc.{Kernel}
use os_implement.SortedArray.{cmp}
use os_implement.Heap.{Heap}
use os_implement.Frames.{Phys, alloc_frame}
use os_implement.Paging.{zero_page}
use os_implement.Paging.{PageDir}
use os_implement.Paging.Empty.{empty_dir-IsTables, empty_dir-VacantAt}
use os_implement.Heap.{add32, sub32}
use os_implement.Heap.Bytes.{IsApart-above}
use os_implement.Paging.Exact.{IsExact, kernel_page, zeros-IsExact, alloc_frame-IsExact}
use os_implement.Task.Stack.{Space, move_stack}
use os_implement.Task.Moved.{CanMove, IsMoved, move_stack-IsMoved}

abbrev regs : ℕ → Regs
regs n = record { esp = n; ebp = n + 4; eip = n + 8 }

abbrev task : ℕ → Task
task n = record { addr = 100 * n; pid = n; regs = regs (1000 * n); page_dir = 7 * n; time = 0 }

abbrev three : List Task
three = task 1 ∷ task 2 ∷ task 3 ∷ []

abbrev running : ℕ → Tasks
running n = record { list = three; cur_task = 100 * n; next_pid = 4; cur_vm_page_dir = 7 * n }

three_addr : (i : ℕ) (t : Task) → get_elem? three i ≡ some t → t.addr ≡ 100 * (i + 1)
three_addr zero t h = ground (arith, h)
three_addr (suc zero) t h = ground (arith, h)
three_addr (suc (suc zero)) t h = ground (arith, h)
three_addr (suc (suc (suc i))) t h = cc

three-IsTable : IsTable three
three-IsTable = record {
  apart = λ i j t u p q e. omega (arith, three_addr i t p, three_addr j u q);
  placed = λ i t p z. omega (arith, three_addr i t p);
}

running_first : IsRunning (running 1) 0
running_first = record { table = three-IsTable; inside = omega arith; current = refl }

running_last : IsRunning (running 3) 2
running_last = record { table = three-IsTable; inside = omega arith; current = refl }

fresh : (n : ℕ) → n < 1000 → IsFresh (regs n)
fresh n h z = omega arith

task_switch_example :
    (s' : Tasks) × (task_switch (regs 5) (running 3)
      ≡ some (
        jump
            (switched (regs 5) (running 3) 2 (task 1)).page_dir
            (switched (regs 5) (running 3) 2 (task 1)).regs,
        s',
      ))
    × IsRunning s' (turn (running 3) 2)
    × (s'.cur_vm_page_dir ≡ 7)
    × (length s'.list ≡ 3)
    × ((j : ℕ) (t : Task)
        → get_elem? three j ≡ some t
        → get_elem? s'.list j ≡ some (if j == 2 then save (regs 5) t else t))
task_switch_example =
    task_switch-turn (regs 5) (running 3) 2 (task 1) running_last (fresh 5 (omega arith)) refl

switches_round_example :
    (s' : Tasks) × (switches back (regs 5 ∷ regs 6 ∷ regs 7 ∷ []) (running 3)
      ≡ some (jump 21 (regs 5), s'))
    × IsRunning s' 2
switches_round_example =
    switches_round (regs 5) (regs 6 ∷ regs 7 ∷ []) back (running 3) 2 (task 3) running_last
      (fresh 5 (omega arith)) (fresh 6 (omega arith), (fresh 7 (omega arith), tt)) refl refl

fresh_addr : IsFreshAddr 400 three
fresh_addr = (λ z. omega arith, (λ z. omega arith, (λ z. omega arith, (λ z. omega arith, tt))))

fork_example :
    (s' : Tasks) × (fork 77 400 (regs 5) (running 1) ≡ some (4, s'))
    × (s'.list ≡ three ++ record (new_task 400 4 77) { regs = regs 5 } ∷ [])
    × IsRunning s' 0
    × (s'.next_pid ≡ (4 + 1) % 2 ^ 32)
    × ((r' : Regs) (t : Tasks) → t.cur_task ≡ 400 → fork_return 100 400 4 r' t ≡ (0, t))
fork_example = fork_lem 77 400 (regs 5) (running 1) 0 running_first fresh_addr

abbrev bare_dir : PageDir
bare_dir = record {
  page_table = replicate 1024 none;
  page_table_phy = replicate 1024 0;
  page_dir_phy = 0;
}

abbrev one_hole : Heap
one_hole = record {
  index = record { array = 0 ∷ []; size = 1; cur = 0; cmp_fun = cmp };
  start_address = 0xc000_0000;
  end_address = 0xc000_1000;
  max_address = 0xcfff_f000;
  supervisor = 0;
  readonly = 0;
  table_phy = λ t. 0;
  memory = λ a. 0;
  vm_page_dir = bare_dir;
  vm = record { tables = []; phys = record { frames = []; printed = [] }; copies = [] };
}

abbrev kernel : Kernel
kernel = record { kheap = some one_hole; placement_address = 0; cur_vm_page_dir = bare_dir }

-- A stack of 0x200 bytes with nothing mapped, and frame 0 used.
abbrev no_frames : Phys
no_frames = record { frames = replicate 512 0; printed = [] }

one_used :
    (s : Phys) × (alloc_frame zero_page 0 1 no_frames ≡ some (kernel_page 0, s)) × IsExact 1 s
one_used = alloc_frame-IsExact 0 no_frames (zeros-IsExact no_frames 512 refl refl) (omega arith)

abbrev bare : Phys → Space
bare phys = record {
  dir = bare_dir;
  vm = record { tables = []; phys = phys; copies = [] };
  memory = λ a. 0;
}

bare-CanMove : CanMove 0xdfffd 2 1 0x9_0000 0x8_fe00 (bare one_used.0)
bare-CanMove = record {
  down = omega arith;
  short = omega arith;
  small = omega arith;
  above = omega arith;
  some_used = omega arith;
  few = omega arith;
  apart = IsApart-above (omega arith) (omega arith);
  bytes = λ a. omega arith;
  tables = empty_dir-IsTables 1024 bare_dir (bare one_used.0).vm refl refl refl refl;
  exact = one_used.2;
  vacant = λ j small. empty_dir-VacantAt 1024 bare_dir (bare one_used.0).vm (0xdfffd + 1 + j) refl;
}

move_stack_example :
    (s' : Space) × (move_stack
        (λ t. 0x20_0000 + 0x1000 * t)
        ((0xdfffd + 1 + 2) * 0x1000)
        (2 * 0x1000)
        0x9_0000
        0x8_fe00
        0x8_fe20
        (bare one_used.0)
      ≡ some (
        (0xdfffd + 1 + 2) * 0x1000 - (0x9_0000 - 0x8_fe00),
        add32 0x8_fe20 (sub32 ((0xdfffd + 1 + 2) * 0x1000) 0x9_0000),
        s',
      ))
    × IsMoved 0xdfffd 2 1 0x9_0000 0x8_fe00 (bare one_used.0) s'
move_stack_example =
    move_stack-IsMoved (λ t. 0x20_0000 + 0x1000 * t) 0xdfffd 2 1 0x9_0000 0x8_fe00 0x8_fe20
      (bare one_used.0) bare-CanMove
