-- ===== src/Startup/Booted.antt =====
-- What `main` has set up when it forks.
use os_implement.Prelude.{ℕ, ◌+◌, ◌*◌, ◌≤◌, ◌<◌, ◌≡◌, none, some, [], length}
use os_implement.Paging.Mapping.{page_at}
use os_implement.Interrupts.{handler_at}
use os_implement.Fs.Node.{root, Initrd}
use os_implement.Fs.Initrd.{rounds_of, headers_in}
use os_implement.Fs.Mount.{AreNamed, IsRamdisk}
use os_implement.Heap.Bytes.{Memory, IsBytes, IsKept, load32}
use os_implement.Task.{getpid}
use os_implement.Paging.Exact.{IsExact, kernel_page}
use os_implement.Startup.HeapPages.{first_page, heap_pages}
use os_implement.Startup.Multitask.{IsLoaded, first_task}
use os_implement.Startup.Main.{Handler, Platform, System, initrd_location, initrd_end}

-- A machine that the loader has started: no heap and no tables, an interrupt table of 256 places, and a
-- ramdisk that ends at most 14 megabytes in.
pub record IsFresh (p : Platform) (initial_stack : ℕ) (s : System) : Type 0 where
  pub kheap : s.machine.kernel.kheap ≡ none
  pub tables : s.machine.vm.tables ≡ []
  pub handlers : length s.handlers ≡ 256
  pub bytes : IsBytes s.memory
  pub end : initrd_end p s ≤ 0xe0_0000
  pub stack : IsLoaded initial_stack p.regs.esp
  pub next_pid : s.tasks.next_pid ≡ 1
  pub inside :
      initrd_location p s + 4 + 76 * rounds_of (load32 s.memory (initrd_location p s))
      ≤ initrd_end p s
  pub names : AreNamed (headers_in s.memory (initrd_location p s)) p.raw
  pub root_room : 5 < length p.raw_root
  pub dev_room : 2 < length p.raw_dev

-- What is there when `main` forks, in the system s' from the system s: the pages of the kernel with the
-- ramdisk, of the heap and of the stack, the handlers, the ramdisk's root and the first task.
pub record IsBooted (p : Platform) (initial_stack : ℕ) (s : System) (N : ℕ) (s' : System)
    : Type 0 where
  pub low :
      (k : ℕ)
      → k < N
      → page_at k s'.machine.kernel.cur_vm_page_dir s'.machine.vm ≡ some (kernel_page k)
  pub ramdisk : initrd_end p s ≤ N * 0x1000
  pub heap :
      (k : ℕ)
      → k < heap_pages
      → page_at (first_page + k) s'.machine.kernel.cur_vm_page_dir s'.machine.vm
        ≡ some (kernel_page (N + k))
  pub stack :
      (j k : ℕ)
      → j + k ≡ 2
      → page_at (0xdfffe + j) s'.machine.kernel.cur_vm_page_dir s'.machine.vm
        ≡ some (kernel_page (N + heap_pages + k))
  pub exact : IsExact (N + heap_pages + 3) s'.machine.vm.phys
  pub page_fault_lem : handler_at s'.handlers 14 ≡ some Handler.page_fault
  pub timer : handler_at s'.handlers 32 ≡ some Handler.timer_callback
  pub keyboard : handler_at s'.handlers 33 ≡ some Handler.keyboard_handler
  pub tasks : s'.tasks ≡ first_task p.task_addr p.task_time s.tasks
  pub getpid_lem : getpid s'.tasks ≡ some 1
  pub initrd : Initrd
  pub fs_root : s'.fs_root ≡ some (root, initrd)
  pub memory_lem : s'.memory ≡ initrd.memory
  pub found : Memory
  pub kept : IsKept 0xc008_0000 s.memory found
  pub headers : headers_in found (initrd_location p s) ≡ headers_in s.memory (initrd_location p s)
  pub mounted : IsRamdisk (initrd_location p s) found initrd
