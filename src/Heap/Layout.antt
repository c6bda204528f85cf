-- ===== src/Heap/Layout.antt =====
-- Headers and footers in memory: what is read back, and what a write beside them leaves alone.
use os_implement.Prelude.{ℕ, ◌+◌, ◌^◌, ◌≤◌, ◌<◌, ◌≡◌, inl, inr, ◌∙◌, arith}
use os_implement.Heap.Bytes.{
  Memory, load8, load32, store8, store32, IsApart, IsApart-within, IsApart-above, load8-store8_self,
  load8-store8_apart, load32-store32_self, load8-store32_apart, load32-store8_apart,
  load32-store32_apart, IsBytes, store8-IsBytes, store32-IsBytes, IsKept, store8-IsKept,
  store32-IsKept,
}
use os_implement.Heap.{heap_magic, is_hole_at, magic_at, size_at, header_at, put_header, put_footer}

pub record HeaderAt (m : Memory) (header hole size : ℕ) : Type 0 where
  pub kind : is_hole_at m header ≡ hole
  pub stamp : magic_at m header ≡ heap_magic
  pub extent : size_at m header ≡ size

pub record FooterAt (m : Memory) (footer header : ℕ) : Type 0 where
  pub stamp : load32 m footer ≡ heap_magic
  pub owner : header_at m footer ≡ header

pub put_header-HeaderAt :
    (m : Memory) (header hole size : ℕ)
    → header + 12 ≤ 2 ^ 32
    → hole < 2 ^ 8
    → size < 2 ^ 32
    → HeaderAt (put_header hole size header m) header hole size
unfolding put_header
put_header-HeaderAt m header hole size h l k =
    let m1 = store32 m (header + 4) heap_magic in
    let m2 = store8 m1 header hole in
    record {
      kind =
          load8-store32_apart m2 (header + 8) size header
            (record { first = omega arith; second = omega arith; sides = inr (omega arith) })
          ∙ load8-store8_self m1 header hole
          ∙ omega arith;
      stamp =
          load32-store32_apart m2 (header + 8) size (header + 4)
            (record { first = omega arith; second = omega arith; sides = inr (omega arith) })
          ∙ load32-store8_apart m1 header hole (header + 4)
              (record { first = omega arith; second = omega arith; sides = inl (omega arith) })
          ∙ load32-store32_self m (header + 4) heap_magic (omega arith);
      extent = load32-store32_self m2 (header + 8) size k;
    }

pub put_footer-FooterAt :
    (m : Memory) (footer header : ℕ)
    → footer + 8 ≤ 2 ^ 32
    → header < 2 ^ 32
    → FooterAt (put_footer header footer m) footer header
unfolding put_footer
put_footer-FooterAt m footer header h l =
    let m1 = store32 m footer heap_magic in
    record {
      stamp =
          load32-store32_apart m1 (footer + 4) header footer
            (record { first = omega arith; second = omega arith; sides = inr (omega arith) })
          ∙ load32-store32_self m footer heap_magic (omega arith);
      owner = load32-store32_self m1 (footer + 4) header l;
    }

module _ (m : Memory) where
  pub load8-put_footer :
      (header footer b : ℕ)
      → IsApart footer 8 b 1
      → load8 (put_footer header footer m) b ≡ load8 m b
  unfolding put_footer
  load8-put_footer header footer b z =
      load8-store32_apart (store32 m footer heap_magic) (footer + 4) header b
        (IsApart-within z (omega arith) (omega arith))
      ∙ load8-store32_apart m footer heap_magic b (IsApart-within z (omega arith) (omega arith))

  pub load32-put_footer :
      (header footer b : ℕ)
      → IsApart footer 8 b 4
      → load32 (put_footer header footer m) b ≡ load32 m b
  unfolding put_footer
  load32-put_footer header footer b z =
      load32-store32_apart (store32 m footer heap_magic) (footer + 4) header b
        (IsApart-within z (omega arith) (omega arith))
      ∙ load32-store32_apart m footer heap_magic b (IsApart-within z (omega arith) (omega arith))

  pub load8-put_header :
      (hole size header b : ℕ)
      → IsApart header 12 b 1
      → load8 (put_header hole size header m) b ≡ load8 m b
  unfolding put_header
  load8-put_header hole size header b z =
      load8-store32_apart _ (header + 8) size b (IsApart-within z (omega arith) (omega arith))
      ∙ load8-store8_apart (store32 m (header + 4) heap_magic) header hole b
          (IsApart-within z (omega arith) (omega arith))
      ∙ load8-store32_apart m (header + 4) heap_magic b
          (IsApart-within z (omega arith) (omega arith))

  pub load32-put_header :
      (hole size header b : ℕ)
      → IsApart header 12 b 4
      → load32 (put_header hole size header m) b ≡ load32 m b
  unfolding put_header
  load32-put_header hole size header b z =
      load32-store32_apart _ (header + 8) size b (IsApart-within z (omega arith) (omega arith))
      ∙ load32-store8_apart (store32 m (header + 4) heap_magic) header hole b
          (IsApart-within z (omega arith) (omega arith))
      ∙ load32-store32_apart m (header + 4) heap_magic b
          (IsApart-within z (omega arith) (omega arith))

  -- A header and a footer written keep the headers beside them.
  pub HeaderAt-put_footer :
      (to footer header hole size : ℕ)
      → IsApart footer 8 header 12
      → HeaderAt m header hole size
      → HeaderAt (put_footer to footer m) header hole size
  HeaderAt-put_footer to footer header hole size z r = record {
    kind =
        load8-put_footer to footer header (IsApart-within z (omega arith) (omega arith)) ∙ r.kind;
    stamp =
        load32-put_footer to footer (header + 4) (IsApart-within z (omega arith) (omega arith))
        ∙ r.stamp;
    extent =
        load32-put_footer to footer (header + 8) (IsApart-within z (omega arith) (omega arith))
        ∙ r.extent;
  }

  pub HeaderAt-put_header :
      (hole' size' other header hole size : ℕ)
      → IsApart other 12 header 12
      → HeaderAt m header hole size
      → HeaderAt (put_header hole' size' other m) header hole size
  HeaderAt-put_header hole' size' other header hole size z r = record {
    kind =
        load8-put_header hole' size' other header (IsApart-within z (omega arith) (omega arith))
        ∙ r.kind;
    stamp =
        load32-put_header hole' size' other (header + 4)
          (IsApart-within z (omega arith) (omega arith))
        ∙ r.stamp;
    extent =
        load32-put_header hole' size' other (header + 8)
          (IsApart-within z (omega arith) (omega arith))
        ∙ r.extent;
  }

-- A header with its footer: the header reads back, and others beside the two are kept.
abbrev pub put_both : ℕ → ℕ → ℕ → ℕ → Memory → Memory
put_both hole size header footer m = put_footer header footer (put_header hole size header m)

pub put_both-HeaderAt :
    (m : Memory) (hole size header footer : ℕ)
    → header + 12 ≤ footer
    → footer + 8 ≤ 2 ^ 32
    → hole < 2 ^ 8
    → size < 2 ^ 32
    → HeaderAt (put_both hole size header footer m) header hole size
put_both-HeaderAt m hole size header footer h l a b =
    HeaderAt-put_footer (put_header hole size header m) header footer header hole size
      (IsApart-above h l) (put_header-HeaderAt m header hole size (omega arith) a b)

pub HeaderAt-put_both :
    (m : Memory) (hole size other footer header k n : ℕ)
    → IsApart other 12 header 12
    → IsApart footer 8 header 12
    → HeaderAt m header k n
    → HeaderAt (put_both hole size other footer m) header k n
HeaderAt-put_both m hole size other footer header k n p q h =
    HeaderAt-put_footer (put_header hole size other m) other footer header k n q
      (HeaderAt-put_header m hole size other header k n p h)

pub put_header-IsBytes :
    (hole size header : ℕ) (m : Memory) → IsBytes m → IsBytes (put_header hole size header m)
unfolding put_header
put_header-IsBytes hole size header m h =
    store32-IsBytes _ (header + 8) size
      (store8-IsBytes _ header hole (store32-IsBytes m (header + 4) heap_magic h))

pub put_both-IsBytes :
    (hole size header footer : ℕ) (m : Memory)
    → IsBytes m
    → IsBytes (put_both hole size header footer m)
unfolding put_footer
put_both-IsBytes hole size header footer m h =
    store32-IsBytes _ (footer + 4) header
      (store32-IsBytes _ footer heap_magic (put_header-IsBytes hole size header m h))

pub put_header-IsKept :
    (bound hole size header : ℕ) (m m' : Memory)
    → bound ≤ header
    → header + 12 ≤ 2 ^ 32
    → IsKept bound m m'
    → IsKept bound m (put_header hole size header m')
unfolding put_header
put_header-IsKept bound hole size header m m' h l k =
    store32-IsKept bound (header + 8) size m _ (omega arith) (omega arith) (
      store8-IsKept bound header hole m _ h (omega arith)
        (store32-IsKept bound (header + 4) heap_magic m m' (omega arith) (omega arith) k))

pub put_both-IsKept :
    (bound hole size header footer : ℕ) (m m' : Memory)
    → bound ≤ header
    → header + 12 ≤ 2 ^ 32
    → bound ≤ footer
    → footer + 8 ≤ 2 ^ 32
    → IsKept bound m m'
    → IsKept bound m (put_both hole size header footer m')
unfolding put_footer
put_both-IsKept bound hole size header footer m m' h l f e k =
    store32-IsKept bound (footer + 4) header m _ (omega arith) (omega arith) (
      store32-IsKept bound footer heap_magic m _ f (omega arith)
        (put_header-IsKept bound hole size header m m' h l k))
