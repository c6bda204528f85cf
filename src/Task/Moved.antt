-- ===== src/Task/Moved.antt =====
-- `move_stack` as a whole, and the first task.
use os_implement.Prelude.{
  ℕ, ◌+◌, ◌-◌, ◌*◌, ◌/◌, ◌^◌, ◌≤◌, ◌<◌, ◌≡◌, refl, sym, ap, ◌∙◌, some, arith,
}
use os_implement.Frames.{frame_count}
use os_implement.Paging.{PageDir, Vm}
use os_implement.Paging.Lookup.{IsTables}
use os_implement.Paging.Mapping.{VacantAt}
use os_implement.Heap.{add32, sub32}
use os_implement.Heap.Bytes.{Memory, IsBytes, load32, IsApart, IsApart-within, IsKept}
use os_implement.Text.Copy.{memcpy, load32-memcpy, load32-memcpy_apart, memcpy-IsKept}
use os_implement.Paging.Exact.{IsExact}
use os_implement.Task.Stack.{Space, map_stack, relocate, relocate_words, move_stack}
use os_implement.Task.Relocate.{relocate_words-relocate}
use os_implement.Task.StackPages.{StackMapped, map_stack-StackMapped}

move_stack_step :
    (phy : ℕ → ℕ) (new_stack size initial_esp esp ebp offset new_p depth last : ℕ) (s : Space)
    (dir : PageDir) (vm : Vm) (memory : Memory)
    → sub32 new_stack size ≡ last
    → sub32 new_stack initial_esp ≡ offset
    → add32 esp offset ≡ new_p
    → sub32 initial_esp esp ≡ depth
    → map_stack phy (size / 0x1000 + 2) last new_stack s.dir s.vm ≡ some (dir, vm)
    → relocate_words esp initial_esp offset
        (size / 4 + 2)
        last
        new_stack
        (memcpy new_p esp depth s.memory)
      ≡ some memory
    → move_stack phy new_stack size initial_esp esp ebp s
      ≡ some (new_p, add32 ebp offset, record { dir = dir; vm = vm; memory = memory })
unfolding move_stack
move_stack_step phy new_stack size initial_esp esp ebp offset new_p depth last s dir vm memory a b c
      d e f =
    rw (a, b, c, d, e, f) refl

-- A stack of less than r pages, from esp up to initial_esp, and room for it above page b: all the pages
-- are there for, and nothing is mapped in them; u frames are used.
pub record CanMove (b r u initial_esp esp : ℕ) (s : Space) : Type 0 where
  pub down : esp ≤ initial_esp
  pub short : initial_esp - esp < r * 0x1000
  pub small : initial_esp < 2 ^ 32
  pub above : b + 1 + r < 2 ^ 20
  pub some_used : 0 < u
  pub few : u + r + 1 ≤ frame_count
  pub apart : IsApart ((b + 1) * 0x1000) (r * 0x1000 + 4) esp (initial_esp - esp)
  pub bytes : IsBytes s.memory
  pub tables : IsTables s.dir s.vm
  pub exact : IsExact u s.vm.phys
  pub vacant : (j : ℕ) → j < r + 1 → VacantAt (b + 1 + j) s.dir s.vm

-- The stack when it was moved: the same words, in which the addresses of the old stack were
-- moved along, and no other word is changed.
pub record IsMoved (b r u initial_esp esp : ℕ) (s s' : Space) : Type 0 where
  pub pages : StackMapped b (r + 1) u s.dir s.vm s'.dir s'.vm
  pub words :
      (k : ℕ)
      → 0 < k
      → 4 * k ≤ initial_esp - esp
      → load32 s'.memory ((b + 1 + r) * 0x1000 - 4 * k)
        ≡ relocate esp initial_esp
            (sub32 ((b + 1 + r) * 0x1000) initial_esp)
            (load32 s.memory (initial_esp - 4 * k))
  pub kept :
      (a : ℕ)
      → IsApart ((b + 1) * 0x1000) (r * 0x1000 + 4) a 4
      → load32 s'.memory a ≡ load32 s.memory a
  pub below : IsKept ((b + 1) * 0x1000) s.memory s'.memory

-- A stack of fewer than r pages, from esp up to initial_esp, that lies apart from r pages below a new
-- top, with nothing mapped in those pages and at the top, in a directory of 1024 entries whose tables are
-- all different and whole, while the frames that are used are the first u, at least one, with r + 1 frames
-- behind them: `move_stack` maps the pages, to the next frames. The stack pointer is as far below the new
-- top as it was below initial_esp, and ebp moves by the same distance. Every word that lies a multiple of 4
-- below the top is the old one, moved by that distance if it is an address above esp and below
-- initial_esp; the memory outside is kept.
pub move_stack-IsMoved :
    (phy : ℕ → ℕ) (b r u initial_esp esp ebp : ℕ) (s : Space)
    → CanMove b r u initial_esp esp s
    → (s' : Space) × (move_stack phy ((b + 1 + r) * 0x1000) (r * 0x1000) initial_esp esp ebp s
        ≡ some (
          (b + 1 + r) * 0x1000 - (initial_esp - esp),
          add32 ebp (sub32 ((b + 1 + r) * 0x1000) initial_esp),
          s',
        ))
      × IsMoved b r u initial_esp esp s s'
move_stack-IsMoved phy b r u initial_esp esp ebp s h =
    let top = (b + 1 + r) * 0x1000 in
    let last = (b + 1) * 0x1000 in
    let depth = initial_esp - esp in
    let offset = sub32 top initial_esp in
    let new_p = top - depth in
    let copied = memcpy new_p esp depth s.memory in
    let (dir, vm, e, pages) =
      map_stack-StackMapped phy (r + 1) (r * 0x1000 / 0x1000 + 2) b u s.dir s.vm (omega arith)
        (omega (arith, h.above)) (omega (arith, h.few)) h.tables h.exact h.vacant in
    let (memory, f, moved, kept, below) =
      relocate_words-relocate esp initial_esp offset (r * 1024) (r * 0x1000 / 4 + 2) last copied
        (omega arith) (omega (arith, h.above)) in
    let within : IsApart new_p depth esp depth =
      IsApart-within h.apart (omega (arith, h.short, h.above)) (omega (arith, h.short)) in
    let place : (b + (r + 1)) * 0x1000 ≡ top = omega arith in
    let place' : last + 4 * (r * 1024) ≡ top = omega arith in
    (
      record { dir = dir; vm = vm; memory = memory },
      move_stack_step phy top (r * 0x1000) initial_esp esp ebp offset new_p depth last s dir vm
          memory (omega (arith, h.above)) refl (omega (arith, h.above, h.short, h.small, h.down))
          (omega (arith, h.small, h.down))
          (ap (λ i. map_stack phy (r * 0x1000 / 0x1000 + 2) last i s.dir s.vm) (sym place) ∙ e)
          (ap (λ i. relocate_words esp initial_esp offset (r * 0x1000 / 4 + 2) last i copied)
              (sym place')
            ∙ f),
      record {
        pages = pages;
        words = λ k some_k deep.
            let w = r * 1024 - k in
            let spot : last + 4 * w ≡ top - 4 * k = omega (arith, h.short) in
            let from : new_p + (depth - 4 * k) ≡ last + 4 * w = omega (arith, h.short) in
            let to : esp + (depth - 4 * k) ≡ initial_esp - 4 * k = omega (arith, h.down) in
            ap (load32 memory) (sym spot)
            ∙ moved w (omega (arith, h.short)) (omega arith)
            ∙ ap (relocate esp initial_esp offset) (
                ap (load32 copied) (sym from)
                ∙ load32-memcpy depth new_p esp (depth - 4 * k) s.memory h.bytes
                    (omega (arith, h.above, h.short)) (omega (arith, h.small, h.down)) within
                    (omega arith)
                ∙ ap (load32 s.memory) to);
        kept = λ a away.
            kept a (IsApart-within away (omega arith) (omega arith))
            ∙ load32-memcpy_apart depth new_p esp a s.memory (omega (arith, h.above, h.short))
                (omega (arith, h.small, h.down))
                (IsApart-within away (omega (arith, h.short)) (omega arith));
        below = λ a small.
            below a (omega arith)
            ∙ memcpy-IsKept last depth new_p esp s.memory s.memory (omega (arith, h.short))
                (omega (arith, h.above, h.short)) (λ i l. refl) a small;
      },
    )
