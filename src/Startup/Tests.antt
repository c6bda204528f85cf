-- ===== src/Startup/Tests.antt =====
-- A kernel whose memory ends at 0x120010, and the machine that the loader leaves.
use os_implement.Prelude.{
  ◌==◌, if◌then◌else◌, ◌∷◌, ◌++◌, ℕ, ◌+◌, ◌*◌, ◌≡◌, refl, Option, none, some, List, [], arith,
  replicate,
}
use os_implement.Paging.{PageDir}
use os_implement.Heap.Bytes.{Memory}
use os_implement.Monitor.{monitor_write}
use os_implement.Keyboard.{us}
use os_implement.Keyboard.Layout.{Keymap}
use os_implement.Startup.Main.{Platform, System}
use os_implement.Interrupts.{register_interrupt_handler}
use os_implement.Startup.{Machine, init_paging}
use os_implement.Startup.Paged.{IsPaged, HasHeap, init_paging-IsPaged}

abbrev no_dir : PageDir
no_dir = record { page_table = []; page_table_phy = []; page_dir_phy = 0 }

abbrev loaded : Machine
loaded = record {
  kernel = record { kheap = none; placement_address = 0x12_0010; cur_vm_page_dir = no_dir };
  vm_page_dir = no_dir;
  vm = record { tables = []; phys = record { frames = []; printed = [] }; copies = [] };
  cr0 = 0x11;
  cr3 = 0;
}

abbrev blank_memory : Memory
blank_memory a = 0

abbrev table_phy : ℕ → ℕ
table_phy t = 0x13_0000 + 0x1000 * t

abbrev no_handlers : List (Option ℕ)
no_handlers = replicate 256 none

init_paging_example :
    (handlers' : List (Option ℕ)) × (s' : Machine) × (N : ℕ) × (init_paging 7 table_phy blank_memory
        no_handlers loaded
      ≡ some (handlers', s'))
    × IsPaged loaded N s'
    × HasHeap blank_memory s'
    × (handlers' ≡ register_interrupt_handler 14 7 no_handlers)
init_paging_example =
    init_paging-IsPaged 7 table_phy blank_memory no_handlers loaded refl refl (omega arith)

-- The loader's list of modules at 0x9000, with one from 0x110000 to 0x120010: a ramdisk with the file
-- "ab", of 5 bytes.
abbrev boot_memory : Memory
boot_memory a =
    if a == 0x9002
    then 0x11
    else if a == 0x9004
    then 0x10
    else if a == 0x9006
    then 0x12
    else if a == 0x11_0000
    then 1
    else if a == 0x11_0005
    then 97
    else if a == 0x11_0006
    then 98
    else if a == 0x11_004c
    then 5
    else 0

abbrev platform : Platform
platform = record {
  gdt_address = 0x10_2000;
  idt_address = 0x10_3000;
  stub = λ n. 0x10_0000 + 16 * n;
  table_phy = table_phy;
  printf = λ text s. monitor_write (text ++ 0 ∷ []) s;
  mods_addr = 0x9000;
  regs = record { esp = 0x8_fe00; ebp = 0x8_fe20; eip = 0 };
  task_addr = 0xc008_4000;
  task_time = 0;
  raw_root = replicate 128 0;
  raw_dev = replicate 128 0;
  raw = replicate 128 0 ∷ [];
  dirent = record { name = replicate 128 0; ino = 0 };
}

abbrev no_keymap : Keymap
no_keymap = record { scancodes = []; shift_scancodes = []; control_map = []; controls = 0 }

abbrev fresh : System
fresh = record {
  screen = record { cursor_x = 0; cursor_y = 0; video = replicate 2000 0; ports = [] };
  tables = record {
    gdt_entry = [];
    gdt_ptr = record { limit = 0; base = 0 };
    idt_entry = [];
    idt_ptr = record { limit = 0; base = 0 };
    ports = [];
  };
  handlers = replicate 256 none;
  timer_ports = [];
  machine = loaded;
  memory = boot_memory;
  tasks = record { list = []; cur_task = 0; next_pid = 1; cur_vm_page_dir = 0xc008_1000 };
  keyboard = record {
    us_map = no_keymap;
    gb_map = no_keymap;
    current_layout = us;
    keyboard_buffer_start = 0;
    keyboard_buffer_end = 0;
    keyboard_buffer = replicate 256 0;
  };
  fs_root = none;
}
