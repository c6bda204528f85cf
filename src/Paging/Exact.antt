-- ===== src/Paging/Exact.antt =====
-- A bitmap whose used frames are the first ones, and the next call of `alloc_frame`.
use os_implement.Prelude.{
  ℕ, ◌+◌, ◌*◌, ◌/◌, ◌%◌, ◌<◌, ◌≡◌, inl, inr, refl, sym, ap, ◌∙◌, Bool, true, false, some, ◌==◌, ltb,
  if◌then◌else◌, arith, Bool-cases, length, length-replicate, replicate, get_elem?,
  get_elem?-replicate, All-replicate, le→ltb,
}
use mathlib.Core.Path.{subst}
use os_implement.Frames.{Page, Phys, alloc_frame, frame_count}
use os_implement.Frames.Byte.{has_bit_clear}
use os_implement.Frames.Bitmap.{IsBitmap, used}
use os_implement.Frames.First.{IsFirstFree}
use os_implement.Frames.Alloc.{IsPhys, alloc_frame-Given}
use os_implement.Paging.{zero_page}

-- The first n frames are used, and no others.
pub record IsExact (n : ℕ) (s : Phys) : Type 0 where
  pub phys : IsPhys s
  pub marks : (f : ℕ) → f < frame_count → used s.frames f ≡ ltb f n

-- The entry of a page that the kernel maps to a frame: valid, writable and open to the user.
abbrev pub kernel_page : ℕ → Page
kernel_page frame = record zero_page { valid = 1; rw = 1; user = 1; frame = frame }

-- A bitmap of zeros.
zeros_used : (k f : ℕ) → f / 8 < k → used (replicate k 0) f ≡ false
zeros_used k f h =
    let e : get_elem? (replicate k 0) (f / 8) ≡ some 0 =
      get_elem?-replicate {A = ℕ} k (f / 8) 0 h in
    rw (used, e) (has_bit_clear (f % 8) (omega arith))

zeros-IsPhys : (s : Phys) (k : ℕ) → 8 * k ≡ frame_count → s.frames ≡ replicate k 0 → IsPhys s
zeros-IsPhys s k size e = record {
  bytes = subst IsBitmap (sym e) (All-replicate (λ byte. byte < 256) k 0 (omega arith));
  size = omega (arith, ap (length {A = ℕ}) e, length-replicate {A = ℕ} k 0);
}

pub zeros-IsExact :
    (s : Phys) (k : ℕ) → 8 * k ≡ frame_count → s.frames ≡ replicate k 0 → IsExact 0 s
zeros-IsExact s k size e = record {
  phys = zeros-IsPhys s k size e;
  marks = λ f h. ap (λ l. used l f) e ∙ zeros_used k f (omega arith) ∙ ground arith;
}

least_is : (n m : ℕ) (s : Phys) → IsExact n s → n < frame_count → IsFirstFree s.frames m → m ≡ n
least_is n m s ok small f = elim (Bool-cases (ltb m n)) [
  | inl lt ↦ cc (sym (ok.marks m (omega (arith, f.inside, ok.phys.size))) ∙ f.free, lt)
  | inr ge ↦ elim (Bool-cases (ltb n m)) [
    | inl lt ↦
        let free : used s.frames n ≡ false = ok.marks n small ∙ le→ltb n n (omega arith) in
        cc (f.least n (ground arith), free)
    | inr ge' ↦ ground arith
  ]
]

pub alloc_frame-IsExact :
    (n : ℕ) (s : Phys)
    → IsExact n s
    → n < frame_count
    → (s' : Phys) × (alloc_frame zero_page 0 1 s ≡ some (kernel_page n, s')) × IsExact (n + 1) s'
alloc_frame-IsExact n s ok small =
    let free : used s.frames n ≡ false = ok.marks n small ∙ le→ltb n n (omega arith) in
    let (m, out, e, g) = alloc_frame-Given zero_page 0 1 s ok.phys refl n small free in
    let same = least_is n m s ok small g.first in
    let page : out.0 ≡ kernel_page n = g.entry ∙ ap kernel_page same in
    (
      out.1,
      e ∙ ap (λ p. some (p, out.1)) page,
      record {
        phys = record { bytes = g.marked.bytes; size = omega (arith, g.marked.size, ok.phys.size) };
        marks = λ f h. g.marked.marks f ∙ next f m same (used s.frames f) (ok.marks f h);
      },
    )
  where
    next :
        (f m : ℕ) → m ≡ n → (u : Bool) → u ≡ ltb f n → (if f == m then true else u) ≡ ltb f (n + 1)
    next f m e u h = ground (arith, e, h)
