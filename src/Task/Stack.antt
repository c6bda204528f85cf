-- ===== src/Task/Stack.antt =====
-- `move_stack` and `init_multitask` of src/task.c: the stack of the kernel moves to an address of its
-- own, and the kernel becomes the first task. The registers esp and ebp are arguments, and the ones that
-- are loaded are results; `none` is a fault, or an end of the fuel.
use os_implement.Prelude.{
  ℕ, zero, suc, ◌+◌, ◌/◌, ◌%◌, ◌^◌, true, false, ◌&&◌, Option, none, some, [], ◌∷◌, ltb, leb,
  if◌then◌else◌, ◌>>=◌,
}
use os_implement.Frames.{alloc_frame}
use os_implement.Paging.{PageDir, Vm, get_page, at_slot}
use os_implement.Heap.{add32, sub32}
use os_implement.Heap.Bytes.{Memory, load32, store32}
use os_implement.Text.Copy.{memcpy}
use os_implement.Task.{Tasks, new_task}

-- The current directory with its tables, and the memory at the addresses of the processor.
pub record Space : Type 0 where
  pub dir : PageDir
  pub vm : Vm
  pub memory : Memory

-- The loop over the pages of the new stack, downwards from i, with the physical addresses of the tables
-- that it makes.
unfoldable pub map_stack : (ℕ → ℕ) → ℕ → ℕ → ℕ → PageDir → Vm → Option (PageDir × Vm)
map_stack phy zero last i dir s = none
map_stack phy (suc fuel) last i dir s = elim (leb last i) [
  | false ↦ some (dir, s)
  | true ↦ do
    (found, dir', s') ← get_page phy i true dir s
    slot ← found
    s'' ← at_slot (λ page. alloc_frame page 0 1) slot s'
    map_stack phy fuel last (sub32 i 0x1000) dir' s''
]

-- A word of the new stack: an address in the old stack moves along.
abbrev pub relocate : ℕ → ℕ → ℕ → ℕ → ℕ
relocate old_stack_p initial_esp offset tmp =
    if ltb old_stack_p tmp && ltb tmp initial_esp then add32 tmp offset else tmp

module _ (old_stack_p initial_esp offset : ℕ) where
  -- The loop over the words of the new stack, downwards from i.
  unfoldable pub relocate_words : ℕ → ℕ → ℕ → Memory → Option Memory
  relocate_words zero last i m = none
  relocate_words (suc fuel) last i m = elim (ltb last i) [
    | false ↦ some m
    | true ↦
        let tmp = load32 m i in
        relocate_words fuel last (sub32 i 4)
          (if ltb old_stack_p tmp && ltb tmp initial_esp then store32 m i (add32 tmp offset) else m)
  ]

-- `move_stack`: the registers esp and ebp in the end.
unfoldable pub move_stack : (ℕ → ℕ) → ℕ → ℕ → ℕ → ℕ → ℕ → Space → Option (ℕ × ℕ × Space)
move_stack phy new_stack size initial_esp old_stack_p old_base_p s = do
  (dir, vm) ← map_stack phy (size / 0x1000 + 2) (sub32 new_stack size) new_stack s.dir s.vm
  let offset = sub32 new_stack initial_esp
  let new_stack_p = add32 old_stack_p offset
  let new_base_p = add32 old_base_p offset
  let copied = memcpy new_stack_p old_stack_p (sub32 initial_esp old_stack_p) s.memory
  memory ←
      relocate_words old_stack_p initial_esp offset (size / 4 + 2) (sub32 new_stack size) new_stack
        copied
  some (new_stack_p, new_base_p, record { dir = dir; vm = vm; memory = memory })

-- `init_multitask`, with the address of the task from `_malloc_s`, and its `time`, which is not written.
unfoldable pub init_multitask :
    (ℕ → ℕ) → ℕ → ℕ → ℕ → ℕ → ℕ → Tasks → Space → Option (ℕ × ℕ × Tasks × Space)
init_multitask phy addr time initial_esp esp ebp tasks s = do
  (esp', ebp', s') ← move_stack phy 0xe000_0000 0x2000 initial_esp esp ebp s
  some (
    esp',
    ebp',
    record tasks {
      list = record (new_task addr tasks.next_pid tasks.cur_vm_page_dir) { time = time } ∷ [];
      cur_task = addr;
      next_pid = (tasks.next_pid + 1) % 2 ^ 32;
    },
    s',
  )
