-- ===== src/Startup/Main.antt =====
-- `main` of src/main.c up to its call of `fork`: the parts are initialised in order. What
-- the loader, the linker and the processor give is in the Platform, with `printf` and with the results
-- of `_malloc_s`; a timer interrupt before there is a task only counts a tick.
use os_implement.Prelude.{ℕ, ◌+◌, Option, none, some, List, [], ◌∷◌, ◌++◌, codes, ◌>>=◌}
use os_implement.Monitor.{Screen, monitor_clear, monitor_write}
use os_implement.Descriptors.{Tables, init_descriptor_tables}
use os_implement.Interrupts.{init_timer, register_interrupt_handler}
use os_implement.Keyboard.{Keyboard, init_keyboard_driver}
use os_implement.Fs.Node.{Dirent, NodeRef, Initrd}
use os_implement.Fs.Initrd.{initialise_initrd}
use os_implement.Heap.Bytes.{Memory, load32}
use os_implement.Task.{Regs, Tasks}
use os_implement.Task.Stack.{Space, init_multitask}
use os_implement.Startup.{Machine, init_paging}

-- The handlers that the initialisation registers.
pub data Handler : Type 0 where
  page_fault timer_callback keyboard_handler : Handler

pub record Platform : Type 0 where
  pub gdt_address : ℕ
  pub idt_address : ℕ
  pub stub : ℕ → ℕ
  pub table_phy : ℕ → ℕ
  pub printf : List ℕ → Screen → Screen
  pub mods_addr : ℕ
  pub regs : Regs
  pub task_addr : ℕ
  pub task_time : ℕ
  pub raw_root : List ℕ
  pub raw_dev : List ℕ
  pub raw : List (List ℕ)
  pub dirent : Dirent

pub record System : Type 0 where
  pub screen : Screen
  pub tables : Tables
  pub handlers : List (Option Handler)
  pub timer_ports : List (ℕ × ℕ)
  pub machine : Machine
  pub memory : Memory
  pub tasks : Tasks
  pub keyboard : Keyboard
  pub fs_root : Option (NodeRef × Initrd)

-- A line that `printf` shows.
abbrev pub say : Platform → List ℕ → System → System
say p text s = record s { screen = p.printf (text ++ 10 ∷ []) s.screen }

-- The screen, the descriptor tables and the timer.
unfoldable pub start_devices : Platform → System → Option System
start_devices p s = do
  let s1 = record s {
    screen = monitor_write (codes "hello, word!" ++ 10 ∷ 0 ∷ []) (monitor_clear s.screen);
  }
  let s2 = say p (codes "[*]initialising descriptor tables...") s1
  let s3 = record s2 {
    tables = init_descriptor_tables p.gdt_address p.idt_address p.stub s2.tables;
  }
  let s4 = say p (codes "[*]initialising timer...") (say p (codes "[^]descriptor tables ready") s3)
  (handlers, ports) ← init_timer 100 Handler.timer_callback s4.handlers
  some (say p (codes "[^]timer ready") (record s4 { handlers = handlers; timer_ports = ports }))

-- The first module that the loader has put into memory: the ramdisk.
abbrev pub initrd_location : Platform → System → ℕ
initrd_location p s = load32 s.memory p.mods_addr

abbrev pub initrd_end : Platform → System → ℕ
initrd_end p s = load32 s.memory (p.mods_addr + 4)

-- Paging, with the placement behind the ramdisk.
unfoldable pub start_paging : Platform → System → Option System
start_paging p s = do
  let placed = record s.machine {
    kernel = record s.machine.kernel { placement_address = initrd_end p s };
  }
  (handlers, machine) ← init_paging Handler.page_fault p.table_phy s.memory s.handlers placed
  heap ← machine.kernel.kheap
  some (record s { handlers = handlers; machine = machine; memory = heap.memory })

-- The machine's directory and tables, with a memory.
abbrev pub space_of : Machine → Memory → Space
space_of m memory = record { dir = m.kernel.cur_vm_page_dir; vm = m.vm; memory = memory }

-- The machine after a change of the current directory, the tables and the memory, which the heap has too.
abbrev pub machine_in : Space → Machine → Machine
machine_in space m = record m {
  kernel = record m.kernel {
    kheap = elim m.kernel.kheap [
      | none ↦ none
      | some h ↦ some (record h { vm = space.vm; memory = space.memory })
    ];
    cur_vm_page_dir = space.dir;
  };
  vm = space.vm;
}

-- The first task, on a stack of its own. The stack pointer is the second result.
unfoldable pub start_tasks : Platform → ℕ → System → Option (System × ℕ)
start_tasks p initial_esp s = do
  (esp, ebp, tasks, space') ←
      init_multitask p.table_phy p.task_addr p.task_time initial_esp p.regs.esp p.regs.ebp s.tasks
        (space_of s.machine s.memory)
  some (
    record s { machine = machine_in space' s.machine; memory = space'.memory; tasks = tasks },
    esp,
  )

-- The keyboard and the ramdisk, whose headers change in memory.
unfoldable pub start_input : Platform → ℕ → System → Option System
start_input p location s = do
  let s1 = record s {
    handlers = register_interrupt_handler 33 Handler.keyboard_handler s.handlers;
    keyboard = init_keyboard_driver s.keyboard;
  }
  let s2 = say p (codes "[*]initialising VFS...") (say p (codes "[^]keyboard ready") s1)
  (node, initrd) ← initialise_initrd location s.memory p.raw_root p.raw_dev p.raw p.dirent
  some (
      say p (codes "[^]VFS ready") (record s2 {
        machine = machine_in (space_of s.machine initrd.memory) s.machine;
        memory = initrd.memory;
        fs_root = some (node, initrd);
      }))

abbrev pub banner : Platform → System → System
banner p s = say p (codes "=============t -a -c -n -k            ==============") (
    say p (codes "=============f -a -c -n -d            ==============") (
      say p (codes "=============p -a                      ==============")
        (say p (codes "=============welcome to mashiro's OS==============") s)))

-- `main` up to its call of `fork`, with the stack pointer.
unfoldable pub main_to_fork : Platform → ℕ → System → Option (ℕ × System)
main_to_fork p initial_stack s = do
  s1 ← start_devices p s
  s2 ← start_paging p (say p (codes "[*]initialising page...") s1)
  (s3, esp) ←
      start_tasks p initial_stack
        (say p (codes "[*]initialising multithread...") (say p (codes "[^]page ready") s2))
  s4 ←
      start_input p (initrd_location p s1)
        (say p (codes "[*]initialising keyboard I/O...") (say p (codes "[^]multithread raedy") s3))
  some (esp, banner p s4)
