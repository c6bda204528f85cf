-- ===== src/Task/StackPages.antt =====
-- The pages of the new stack.
use os_implement.Prelude.{
  ℕ, zero, suc, ◌+◌, ◌-◌, ◌*◌, ◌^◌, ◌≤◌, ◌<◌, ◌≡◌, ◌≢◌, ◌⊎◌, inl, inr, refl, sym, ap, ◌∙◌, true,
  false, some, arith, Bool-cases, leb, ==_iff, ◌==◌,
}
use mathlib.Core.Path.{subst}
use os_implement.Frames.{Page, alloc_frame, frame_count}
use os_implement.Paging.{PageDir, Vm, Slot, zero_page, get_page, at_slot}
use os_implement.Paging.Lookup.{IsTables}
use os_implement.Paging.Mapping.{page_at, VacantAt, get_page_mapping}
use os_implement.Paging.Written.{at_slot_changed}
use os_implement.Heap.{sub32}
use os_implement.Paging.Exact.{IsExact, kernel_page, alloc_frame-IsExact}
use os_implement.Task.Stack.{map_stack}

map_stack_step :
    (phy : ℕ → ℕ) (fuel last p : ℕ) (slot : Slot) (dir dir' : PageDir) (s s' s'' : Vm)
    → last ≤ p * 0x1000 + 0x1000
    → p < 2 ^ 20 - 1
    → get_page phy ((p + 1) * 0x1000) true dir s ≡ some (some slot, dir', s')
    → at_slot (λ page. alloc_frame page 0 1) slot s' ≡ some s''
    → map_stack phy (suc fuel) last ((p + 1) * 0x1000) dir s
      ≡ map_stack phy fuel last (p * 0x1000) dir' s''
unfolding map_stack
map_stack_step phy fuel last p slot dir dir' s s' s'' h small e f =
    let more : leb last ((p + 1) * 0x1000) ≡ true = ground arith in
    let next : sub32 ((p + 1) * 0x1000) 0x1000 ≡ p * 0x1000 = omega arith in
    rw (map_stack, more, e, f, next) refl

map_stack_end :
    (phy : ℕ → ℕ) (fuel last i : ℕ) (dir : PageDir) (s : Vm)
    → i < last
    → map_stack phy (suc fuel) last i dir s ≡ some (dir, s)
unfolding map_stack
map_stack_end phy fuel last i dir s h =
    let done : leb last i ≡ false = ground arith in rw (map_stack, done) refl

-- The pages behind b are mapped downwards, to the frames from u on, and no other page is changed.
pub record StackMapped (b rounds u : ℕ) (dir : PageDir) (s : Vm) (dir' : PageDir) (s' : Vm)
    : Type 0 where
  pub tables : IsTables dir' s'
  pub exact : IsExact (u + rounds) s'.phys
  pub mapped :
      (j k : ℕ) → j + k + 1 ≡ rounds → page_at (b + 1 + j) dir' s' ≡ some (kernel_page (u + k))
  pub kept :
      (q : ℕ) (x : Page)
      → (q ≤ b) ⊎ (b + rounds < q)
      → page_at q dir s ≡ some x
      → page_at q dir' s' ≡ some x

pub map_stack-StackMapped :
    (phy : ℕ → ℕ) (rounds fuel b u : ℕ) (dir : PageDir) (s : Vm)
    → rounds < fuel
    → b + rounds < 2 ^ 20
    → u + rounds ≤ frame_count
    → IsTables dir s
    → IsExact u s.phys
    → ((j : ℕ) → j < rounds → VacantAt (b + 1 + j) dir s)
    → (dir' : PageDir) × (s' : Vm) × (map_stack phy fuel
          ((b + 1) * 0x1000)
          ((b + rounds) * 0x1000)
          dir
          s
        ≡ some (dir', s'))
      × StackMapped b rounds u dir s dir' s'
map_stack-StackMapped phy rounds zero b u dir s enough low room ok exact vacant =
    absurd (omega arith)
map_stack-StackMapped phy zero (suc fuel) b u dir s enough low room ok exact vacant = (
  dir,
  s,
  map_stack_end phy fuel ((b + 1) * 0x1000) ((b + 0) * 0x1000) dir s (omega arith),
  record {
    tables = ok;
    exact = subst (λ n. IsExact n s.phys) (omega arith) exact;
    mapped = λ j k e. absurd (omega arith);
    kept = λ q x l h. h;
  },
)
map_stack-StackMapped phy (suc rounds) (suc fuel) b u dir s enough low room ok exact vacant =
    let p = b + rounds + 1 in
    let top : b + 1 + rounds ≡ p = omega arith in
    let (t, dir1, s1, e, tables1, phys1, entry, clear, keeps) =
      get_page_mapping phy p dir s ok (omega arith) in
    let (phys, f, exact1) =
      alloc_frame-IsExact u s1.phys (subst (IsExact u) (sym phys1) exact) (omega arith) in
    let (s2, g, phys2, tables2, here, there) =
      at_slot_changed dir1 s1 p t (λ page. alloc_frame page 0 1) zero_page (kernel_page u) phys
        tables1 entry (clear (subst (λ q. VacantAt q dir s) top (vacant rounds (omega arith)))) f in
    let other : (q : ℕ) (x : Page) → q ≢ p → page_at q dir s ≡ some x → page_at q dir1 s2 ≡ some x =
      λ q x d h. there q d ∙ (keeps q).mapped x h in
    let still : (j : ℕ) → j < rounds → VacantAt (b + 1 + j) dir1 s2 = λ j less.
      let e' = there (b + 1 + j) (λ h. absurd (omega arith)) in
      elim ((keeps (b + 1 + j)).vacant (vacant j (omega arith))) [
        | inl h ↦ inl (e' ∙ h)
        | inr h ↦ inr (e' ∙ h)
      ] in
    let (dir', s', h, r) =
      map_stack-StackMapped phy rounds fuel b (u + 1) dir1 s2 (omega arith) (omega arith)
        (omega arith) tables2 (subst (IsExact (u + 1)) (sym phys2) exact1) still in
    (
      dir',
      s',
      ap (λ q. map_stack phy (suc fuel) ((b + 1) * 0x1000) (q * 0x1000) dir s) (omega arith)
          ∙ map_stack_step phy fuel ((b + 1) * 0x1000) (b + rounds) _ dir dir1 s s1 s2 (omega arith)
              (omega arith) e g
          ∙ h,
      record {
        tables = r.tables;
        exact = subst (λ n. IsExact n s'.phys) (omega arith) r.exact;
        mapped = λ j k sum. elim (Bool-cases (k == 0)) [
          | inl q ↦
              let first : k ≡ 0 = (==_iff k 0).0 q in
              let place : b + 1 + j ≡ p = omega arith in
              let frame : u ≡ u + k = omega arith in
              ap (λ i. page_at i dir' s') place
              ∙ r.kept p (kernel_page u) (inr (omega arith)) here
              ∙ ap (λ i. some (kernel_page i)) frame
          | inr d ↦
              let later : k ≢ 0 = λ h. cc (d, (==_iff k 0).1 h) in
              let frame : u + 1 + (k - 1) ≡ u + k = omega arith in
              r.mapped j (k - 1) (omega arith) ∙ ap (λ i. some (kernel_page i)) frame
        ];
        kept = λ q x l h.
            r.kept q x (elim l [ inl a ↦ inl a | inr a ↦ inr (omega arith) ])
              (other q x
                (λ same. elim l [ inl a ↦ absurd (omega arith) | inr a ↦ absurd (omega arith) ]) h);
      },
    )
