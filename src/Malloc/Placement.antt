-- ===== src/Malloc/Placement.antt =====
-- Blocks that are taken before there is a heap.
use os_implement.Prelude.{
  ℕ, zero, suc, ◌+◌, ◌-◌, ◌*◌, ◌/◌, ◌%◌, ◌^◌, ◌≤◌, ◌<◌, ◌≡◌, refl, sym, ap, ◌∙◌, bit_and, Bool, not,
  ◌&&◌, Option, none, some, List, [], ◌∷◌, ◌==◌, if◌then◌else◌, get_elem?, ◌>>=◌, arith, eq_of_some,
  get_elem?_lt, lt_of_get_elem?,
}
use mathlib.Core.Path.{subst}
use os_implement.Prelude.Mask.{bit_and-mask, bit_and-page}
use os_implement.Heap.{add32}
use os_implement.Malloc.{Kernel, malloc, malloc_s, malloc_a, malloc_ap}
use os_implement.Malloc.Calls.{
  Call, size_of, align_of, wants_phy, make_call, make_calls, need, IsBlock, AreBlocks, plain,
  aligned, aligned_phy,
}

-- Where a block starts.
abbrev pub start_of : ℕ → ℕ → ℕ
start_of align place =
    if align == 1
    then (if place % 0x1000 == 0 then place else place / 0x1000 * 0x1000 + 0x1000)
    else place

pub malloc_placement :
    (fuel n align : ℕ) (phy : Bool) (k : Kernel)
    → k.kheap ≡ none
    → k.placement_address + n + 0x1000 < 2 ^ 32
    → malloc fuel n align phy k
      ≡ some (
        start_of align k.placement_address,
        if phy then some (start_of align k.placement_address) else none,
        record k { placement_address = start_of align k.placement_address + n },
      )
unfolding malloc
malloc_placement fuel n align phy k e room =
    let place = k.placement_address in
    let low : bit_and place 0xfff ≡ place % 0x1000 = bit_and-mask 12 place in
    let high = bit_and-page place (omega arith) in
    let start : (if align == 1 && not (bit_and place 0xfff == 0)
          then add32 (bit_and place 0xffff_f000) 0x1000
          else place)
        ≡ start_of align place =
      ground (arith, low, high, room) in
    let near : start_of align place ≤ place + 0x1000 = ground arith in
    let next : add32 (start_of align place) n ≡ start_of align place + n = omega (arith, near) in
    let back : (start_of align place + n + 2 ^ 32 - n) % 2 ^ 32 ≡ start_of align place =
      omega (arith, near) in
    rw (e, start, next, back)

make_call-malloc :
    (fuel : ℕ) (c : Call) (k : Kernel)
    → make_call fuel c k ≡ malloc fuel (size_of c) (align_of c) (wants_phy c) k
unfolding make_call malloc_s malloc_a malloc_ap
make_call-malloc fuel (plain n) k = refl
make_call-malloc fuel (aligned n) k = refl
make_call-malloc fuel (aligned_phy n) k = refl

make_call-IsBlock :
    (fuel : ℕ) (c : Call) (k : Kernel)
    → k.kheap ≡ none
    → k.placement_address + size_of c + 0x1000 < 2 ^ 32
    → (addr : ℕ) × (phy : Option ℕ) × (k' : Kernel) × (make_call fuel c k ≡ some (addr, phy, k'))
      × (k'.kheap ≡ none)
      × (k'.placement_address ≡ addr + size_of c)
      × (addr ≤ k.placement_address + 0x1000)
      × IsBlock c (addr, phy) k.placement_address k'.placement_address
make_call-IsBlock fuel c k e room =
    let addr = start_of (align_of c) k.placement_address in
    let k' : Kernel = record k { placement_address = addr + size_of c } in
    (
      addr,
      if wants_phy c then some addr else none,
      k',
      make_call-malloc fuel c k
          ∙ malloc_placement fuel (size_of c) (align_of c) (wants_phy c) k e room,
      e,
      refl,
      ground arith,
      record {
        after = ground arith;
        before = omega arith;
        aligned = λ h. ground arith;
        phy = refl;
      },
    )

AreBlocks-wider :
    {cs : List Call} {blocks : List (ℕ × Option ℕ)} {c : Call} {b : ℕ × Option ℕ} {from mid to : ℕ}
    → IsBlock c b from mid
    → b.0 + size_of c ≡ mid
    → mid ≤ to
    → AreBlocks cs blocks mid to
    → AreBlocks (c ∷ cs) (b ∷ blocks) from to
AreBlocks-wider {cs} {blocks} {c} {b} {from} {mid} {to} first end more rest = record {
  size = ap suc rest.size;
  inside = inside;
  apart = apart;
}
  where
    inside :
        (i : ℕ) (d : Call) (x : ℕ × Option ℕ)
        → get_elem? (c ∷ cs) i ≡ some d
        → get_elem? (b ∷ blocks) i ≡ some x
        → IsBlock d x from to
    inside zero d x e f =
        subst (λ z. IsBlock z x from to) (eq_of_some e)
          (subst (λ u. IsBlock c u from to) (eq_of_some f)
            (record {
              after = first.after;
              before = omega (arith, first.before);
              aligned = first.aligned;
              phy = first.phy;
            }))
    inside (suc i) d x e f =
        let r = rest.inside i d x e f in
        record {
          after = omega (arith, r.after, first.after, first.before);
          before = r.before;
          aligned = r.aligned;
          phy = r.phy;
        }

    apart :
        (i j : ℕ) (d : Call) (x y : ℕ × Option ℕ)
        → i < j
        → get_elem? (c ∷ cs) i ≡ some d
        → get_elem? (b ∷ blocks) i ≡ some x
        → get_elem? (b ∷ blocks) j ≡ some y
        → x.0 + size_of d ≤ y.0
    apart i zero d x y h e f g = absurd (omega arith)
    apart zero (suc j) d x y h e f g =
        let (d', found) =
          get_elem?_lt cs j (omega (arith, rest.size, lt_of_get_elem? blocks j g)) in
        let behind = (rest.inside j d' y found g).after in
        let same : x.0 + size_of d ≡ b.0 + size_of c =
          sym
            (ap (λ z. z.0 + size_of c) (eq_of_some f) ∙ ap (λ z. x.0 + size_of z) (eq_of_some e)) in
        omega (arith, behind, same, end)
    apart (suc i) (suc j) d x y h e f g = rest.apart i j d x y (omega arith) e f g

make_calls_step :
    (fuel : ℕ) (c : Call) (cs : List Call) (k : Kernel) (addr : ℕ) (phy : Option ℕ) (k' : Kernel)
    → make_call fuel c k ≡ some (addr, phy, k')
    → make_calls fuel (c ∷ cs) k ≡ (make_calls fuel cs k' >>= λ r. some ((addr, phy) ∷ r.0, r.1))
unfolding make_calls
make_calls_step fuel c cs k addr phy k' e = rw e

-- While there is no heap and the memory asked for fits below 2^32, with a page for each alignment, any
-- sequence of calls succeeds. Its blocks lie one behind the other between the placement address before
-- and after it, those of `_malloc_a` and `_malloc_ap` start at a page, and a physical address is the
-- address itself.
pub make_calls-AreBlocks :
    (fuel : ℕ) (cs : List Call) (k : Kernel)
    → k.kheap ≡ none
    → k.placement_address + need cs < 2 ^ 32
    → (blocks : List (ℕ × Option ℕ)) × (k' : Kernel) × (make_calls fuel cs k ≡ some (blocks, k'))
      × (k'.kheap ≡ none)
      × (k.placement_address ≤ k'.placement_address)
      × (k'.placement_address ≤ k.placement_address + need cs)
      × AreBlocks cs blocks k.placement_address k'.placement_address
make_calls-AreBlocks fuel [] k e room = (
  [],
  k,
  unfold make_calls in refl,
  e,
  omega arith,
  omega arith,
  record { size = refl; inside = λ i c b h. cc; apart = λ i j c a b l h. cc },
)
make_calls-AreBlocks fuel (c ∷ cs) k e room =
    let (addr, phy, k', made, none', next, near, block) =
      make_call-IsBlock fuel c k e (omega arith) in
    let (blocks, k'', rest, none'', grows, far, more) =
      make_calls-AreBlocks fuel cs k' none' (omega (arith, next, near)) in
    (
      (addr, phy) ∷ blocks,
      k'',
      make_calls_step fuel c cs k addr phy k' made
          ∙ ap (λ o. o >>= λ r. some ((addr, phy) ∷ r.0, r.1)) rest,
      none'',
      omega (arith, grows, next, block.after),
      omega (arith, far, next, near),
      AreBlocks-wider block (sym next) grows more,
    )
