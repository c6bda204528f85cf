-- ===== src/Startup/Identity.antt =====
-- The loop of `init_paging` over the memory of the kernel, which lengthens that memory itself.
use os_implement.Prelude.{
  ℕ, zero, suc, ◌+◌, ◌-◌, ◌*◌, ◌/◌, ◌%◌, ◌^◌, ◌≤◌, ◌<◌, ◌≡◌, ◌≢◌, inl, inr, refl, ◌∙◌, false, some,
  arith, ltb, ltb→lt, lt→ltb, Bool-cases, ◌==◌, ==_iff,
}
use os_implement.Frames.{Page, alloc_frame, frame_count}
use os_implement.Paging.{Vm, Slot, at_slot}
use os_implement.Paging.Mapping.{page_at}
use os_implement.Heap.{add32}
use os_implement.Startup.{Machine, make_page, map_kernel}
use os_implement.Paging.Exact.{kernel_page}
use os_implement.Startup.Step.{IsIdentity, Stepped, Stepped_lem}

-- One round, and the last one.
map_kernel_step :
    (fuel n : ℕ) (s s1 : Machine) (slot : Slot) (vm : Vm)
    → n < 2 ^ 20 - 1
    → n * 0x1000 < s.kernel.placement_address
    → make_page (n * 0x1000) s ≡ some (some slot, s1)
    → at_slot (λ page. alloc_frame page 0 1) slot s1.vm ≡ some vm
    → map_kernel (suc fuel) (n * 0x1000) s
      ≡ map_kernel fuel ((n + 1) * 0x1000) (record s1 { vm = vm })
unfolding map_kernel
map_kernel_step fuel n s s1 slot vm small h e f =
    let next : add32 (n * 0x1000) 0x1000 ≡ (n + 1) * 0x1000 = omega arith in
    rw (map_kernel, lt→ltb (n * 0x1000) s.kernel.placement_address h, e, f, next) refl

map_kernel_end :
    (fuel n : ℕ) (s : Machine)
    → ltb (n * 0x1000) s.kernel.placement_address ≡ false
    → map_kernel (suc fuel) (n * 0x1000) s ≡ some s
unfolding map_kernel
map_kernel_end fuel n s e = rw (map_kernel, e)

-- How far the placement address can have moved when n pages are mapped: by a table and the alignment for
-- each 1024 of them.
abbrev bound : ℕ → ℕ → ℕ
bound start n = start + 0x2000 * ((n + 1023) / 1024)

-- What the loop ends in: N pages, up to the last one below the placement address.
pub record Filled (start N : ℕ) (s s' : Machine) : Type 0 where
  pub identity : IsIdentity N s'
  pub covers : s'.kernel.placement_address ≤ N * 0x1000
  pub tight : N * 0x1000 < s'.kernel.placement_address + 0x1000
  pub grows : s.kernel.placement_address ≤ s'.kernel.placement_address
  pub few : s'.kernel.placement_address ≤ start + 0x8000
  pub kept :
      (q : ℕ) (x : Page)
      → frame_count ≤ q
      → page_at q s.vm_page_dir s.vm ≡ some x
      → page_at q s'.vm_page_dir s'.vm ≡ some x

-- The placement address after a step.
bound_step :
    (start n : ℕ) (s s' : Machine)
    → IsIdentity n s
    → Stepped n s s'
    → s.kernel.placement_address ≤ bound start n
    → s'.kernel.placement_address ≤ bound start (n + 1)
bound_step start n s s' ok step h = elim (Bool-cases (n % 1024 == 0)) [
  | inl e ↦ let e' : n % 1024 ≡ 0 = (==_iff (n % 1024) 0).0 e in omega (arith, step.few)
  | inr d ↦
      let d' : n % 1024 ≢ 0 = λ e. cc (d, (==_iff (n % 1024) 0).1 e) in
      let before : (n - 1) / 1024 ≡ n / 1024 = omega arith in
      omega
        (arith, step.same (kernel_page (n - 1)) (n - 1) before (ok.mapped (n - 1) (omega arith)))
]

pub map_kernel-Filled :
    (start fuel n : ℕ) (s : Machine)
    → IsIdentity n s
    → start ≤ 0xe1_0000
    → 3840 < fuel + n
    → n ≤ 3840
    → n * 0x1000 < s.kernel.placement_address + 0x1000
    → s.kernel.placement_address ≤ bound start n
    → (N : ℕ) × (s' : Machine) × (map_kernel fuel (n * 0x1000) s ≡ some s') × Filled start N s s'
map_kernel-Filled start zero n s ok low enough some_left tight h = absurd (omega arith)
map_kernel-Filled start (suc fuel) n s ok low enough some_left tight h =
    elim (Bool-cases (ltb (n * 0x1000) s.kernel.placement_address)) [
      | inr e ↦ (
        n,
        s,
        map_kernel_end fuel n s e,
        record {
          identity = ok;
          covers = ground arith;
          tight = tight;
          grows = omega arith;
          few = omega arith;
          kept = λ q x l g. g;
        },
      )
      | inl e ↦
          let more = ltb→lt (n * 0x1000) s.kernel.placement_address e in
          let (slot, s1, vm, a, b, step) = Stepped_lem n s ok (omega arith) (omega arith) in
          let s2 : Machine = record s1 { vm = vm } in
          let h' = bound_step start n s s2 ok step h in
          let (N, s', f, r) =
            map_kernel-Filled start fuel (n + 1) s2 step.identity low (omega arith) (omega arith)
              (omega (arith, step.grows)) h' in
          (
            N,
            s',
            map_kernel_step fuel n s s1 slot vm (omega arith) more a b ∙ f,
            record {
              identity = r.identity;
              covers = r.covers;
              tight = r.tight;
              grows = omega (arith, r.grows, step.grows);
              few = r.few;
              kept = λ q x l g. r.kept q x l (step.kept q x (λ p. absurd (omega arith)) g);
            },
          )
    ]
