-- ===== src/Startup/Stages.antt =====
-- The stages of `main`, one by one.
use os_implement.Prelude.{
  ℕ, ◌+◌, ◌-◌, ◌≤◌, ◌<◌, ◌≡◌, refl, ◌∙◌, Option, none, some, List, [], ◌∷◌, ◌++◌, codes, arith,
  length,
}
use os_implement.Paging.Mapping.{page_at}
use os_implement.Interrupts.{handler_at, init_timer, register_interrupt_handler}
use os_implement.Interrupts.Dispatch.{init_timer-divisor, length-register, handler_at-register}
use os_implement.Monitor.{monitor_clear, monitor_write}
use os_implement.Descriptors.{init_descriptor_tables}
use os_implement.Keyboard.{init_keyboard_driver}
use os_implement.Fs.Node.{NodeRef, Initrd}
use os_implement.Fs.Initrd.{initialise_initrd}
use os_implement.Heap.Bytes.{IsBytes, IsKept}
use os_implement.Task.Stack.{Space}
use os_implement.Task.Moved.{IsMoved}
use os_implement.Startup.{Machine}
use os_implement.Paging.Exact.{kernel_page}
use os_implement.Startup.HeapPages.{heap_pages}
use os_implement.Startup.Paged.{IsPaged, init_paging-IsPaged}
use os_implement.Startup.Multitask.{IsLoaded, first_task, init_multitask-IsMoved}
use os_implement.Startup.Main.{
  Handler, Platform, System, say, start_devices, initrd_end, start_paging, machine_in, space_of,
  start_tasks, start_input,
}

-- The system after `start_devices`.
abbrev with_devices : Platform → System → List (Option Handler) → List (ℕ × ℕ) → System
with_devices p s handlers ports =
    let s1 : System = record s {
      screen = monitor_write (codes "hello, word!" ++ 10 ∷ 0 ∷ []) (monitor_clear s.screen);
    } in
    let s2 = say p (codes "[*]initialising descriptor tables...") s1 in
    let s3 : System = record s2 {
      tables = init_descriptor_tables p.gdt_address p.idt_address p.stub s2.tables;
    } in
    let s4 =
      say p (codes "[*]initialising timer...") (say p (codes "[^]descriptor tables ready") s3) in
    say p (codes "[^]timer ready") (record s4 { handlers = handlers; timer_ports = ports })

start_devices_step :
    (p : Platform) (s : System) (handlers : List (Option Handler)) (ports : List (ℕ × ℕ))
    → init_timer 100 Handler.timer_callback s.handlers ≡ some (handlers, ports)
    → start_devices p s ≡ some (with_devices p s handlers ports)
unfolding start_devices
start_devices_step p s handlers ports e = rw e refl

pub start_devices_lem :
    (p : Platform) (s : System)
    → (s' : System) × (start_devices p s ≡ some s')
      × (s'.machine ≡ s.machine)
      × (s'.memory ≡ s.memory)
      × (s'.tasks ≡ s.tasks)
      × (s'.handlers ≡ register_interrupt_handler 32 Handler.timer_callback s.handlers)
start_devices_lem p s =
    let (low, high, e, _, _, _) =
      init_timer-divisor s.handlers 100 Handler.timer_callback (omega arith) in
    (with_devices p s _ _, start_devices_step p s _ _ e, refl, refl, refl, refl)

pub start_paging_lem :
    (p : Platform) (s : System)
    → s.machine.kernel.kheap ≡ none
    → s.machine.vm.tables ≡ []
    → initrd_end p s ≤ 0xe0_0000
    → IsBytes s.memory
    → (s' : System) × (m : Machine) × (N : ℕ) × (start_paging p s ≡ some s')
      × IsPaged m N s'.machine
      × (m.kernel.placement_address ≡ initrd_end p s)
      × (s'.handlers ≡ register_interrupt_handler 14 Handler.page_fault s.handlers)
      × (s'.tasks ≡ s.tasks)
      × IsBytes s'.memory
      × IsKept 0xc008_0000 s.memory s'.memory
unfolding start_paging
start_paging_lem p s e none_yet low bytes =
    let placed : Machine = record s.machine {
      kernel = record s.machine.kernel { placement_address = initrd_end p s };
    } in
    let (handlers, m, N, f, paged, heap, f') =
      init_paging-IsPaged Handler.page_fault p.table_phy s.memory s.handlers placed e none_yet
        low in
    (
      record s { handlers = handlers; machine = m; memory = heap.made.memory },
      placed,
      N,
      rw (f, heap.kheap) refl,
      paged,
      refl,
      f',
      refl,
      heap.bytes bytes,
      heap.kept,
    )

pub start_tasks_lem :
    (p : Platform) (initial_stack N : ℕ) (m : Machine) (s : System)
    → IsPaged m N s.machine
    → IsBytes s.memory
    → m.kernel.placement_address ≤ 0xe0_0000
    → IsLoaded initial_stack p.regs.esp
    → (space : Space) × (start_tasks p initial_stack s
        ≡ some (
          record s {
            machine = machine_in space s.machine;
            memory = space.memory;
            tasks = first_task p.task_addr p.task_time s.tasks;
          },
          0xe000_0000 - (initial_stack - p.regs.esp),
        ))
      × IsMoved 0xdfffd 2
          (N + heap_pages)
          initial_stack
          p.regs.esp
          (space_of s.machine s.memory)
          space
      × ((k : ℕ) → k < N → page_at k space.dir space.vm ≡ some (kernel_page k))
unfolding start_tasks
start_tasks_lem p initial_stack N m s paged bytes low stack =
    let (space, e, moved, kept) =
      init_multitask-IsMoved p.table_phy p.task_addr p.task_time initial_stack p.regs.esp p.regs.ebp
        N s.tasks m s.machine s.memory paged bytes low stack in
    (space, rw e refl, moved, kept)

-- The system after `start_input`.
abbrev pub with_input : Platform → NodeRef × Initrd → System → System
with_input p found s =
    let s1 : System = record s {
      handlers = register_interrupt_handler 33 Handler.keyboard_handler s.handlers;
      keyboard = init_keyboard_driver s.keyboard;
    } in
    let s2 = say p (codes "[*]initialising VFS...") (say p (codes "[^]keyboard ready") s1) in
    say p (codes "[^]VFS ready") (record s2 {
      machine = machine_in (space_of s.machine found.1.memory) s.machine;
      memory = found.1.memory;
      fs_root = some found;
    })

pub start_input_step :
    (p : Platform) (location : ℕ) (s : System) (found : NodeRef × Initrd)
    → initialise_initrd location s.memory p.raw_root p.raw_dev p.raw p.dirent ≡ some found
    → start_input p location s ≡ some (with_input p found s)
unfolding start_input
start_input_step p location s found e = rw e refl

-- The interrupt table behind the three registrations.
abbrev pub registered : List (Option Handler) → List (Option Handler)
registered handlers = register_interrupt_handler 33 Handler.keyboard_handler (
    register_interrupt_handler 14 Handler.page_fault
      (register_interrupt_handler 32 Handler.timer_callback handlers))

pub registered_lem :
    (handlers : List (Option Handler))
    → length handlers ≡ 256
    → (handler_at (registered handlers) 14 ≡ some Handler.page_fault)
      × (handler_at (registered handlers) 32 ≡ some Handler.timer_callback)
      × (handler_at (registered handlers) 33 ≡ some Handler.keyboard_handler)
registered_lem handlers size =
    let one = register_interrupt_handler 32 Handler.timer_callback handlers in
    let two = register_interrupt_handler 14 Handler.page_fault one in
    let size1 = length-register handlers 32 Handler.timer_callback ∙ size in
    let size2 = length-register one 14 Handler.page_fault ∙ size1 in
    let at3 = λ (m : ℕ). handler_at-register two 33 m Handler.keyboard_handler (omega arith) in
    let at2 = λ (m : ℕ). handler_at-register one 14 m Handler.page_fault (omega arith) in
    let at1 = λ (m : ℕ). handler_at-register handlers 32 m Handler.timer_callback (omega arith) in
    (at3 14 ∙ at2 14, at3 32 ∙ at2 32 ∙ at1 32, at3 33)
