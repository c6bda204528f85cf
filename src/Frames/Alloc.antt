-- ===== src/Frames/Alloc.antt =====
-- `alloc_frame` and `free_frame`: the page entry and the bitmap together.
use os_implement.Prelude.{
  ℕ, ◌*◌, ◌/◌, ◌%◌, ◌^◌, ◌<◌, ◌≡◌, ◌≢◌, inl, inr, refl, true, false, none, some, List, ◌==◌,
  if◌then◌else◌, arith, ==_iff, ==_ne, length,
}
use mathlib.Core.Path.{subst}
use os_implement.Frames.{
  Page, Phys, set_frame, first_frame, give_frame, alloc_frame, free_frame, frame_count,
}
use os_implement.Frames.Bitmap.{
  IsBitmap, used, Marked, set_frame-Marked, clear_frame-Marked, set_frame_outside,
}
use os_implement.Frames.First.{IsFirstFree, IsFull, first_frame-IsFirstFree}

-- The bitmap that `init_paging` makes: a bit for each of the FRAME_COUNT frames.
pub record IsPhys (s : Phys) : Type 0 where
  pub bytes : IsBitmap s.frames
  pub size : 8 * length s.frames ≡ frame_count

-- What `alloc_frame` leaves after giving the least free frame n to a page.
pub record Given (page : Page) (is_kernel is_writable : ℕ) (s : Phys) (n : ℕ) (out : Page × Phys)
    : Type 0 where
  pub first : IsFirstFree s.frames n
  pub entry : out.0 ≡ record page {
    valid = 1;
    rw = if is_writable == 0 then 0 else 1;
    user = if is_kernel == 0 then 1 else 0;
    frame = n;
  }
  pub marked : Marked s.frames n true out.1.frames
  pub printed : out.1.printed ≡ s.printed

give_frame-Given :
    (page : Page) (is_kernel is_writable : ℕ) (s : Phys) (n : ℕ)
    → IsPhys s
    → IsFirstFree s.frames n
    → (out : Page × Phys) × (give_frame n page is_kernel is_writable s ≡ some out)
      × Given page is_kernel is_writable s n out
unfolding give_frame
give_frame-Given page is_kernel is_writable s n ok f =
    let e : n * 0x1000 % 2 ^ 32 / 0x1000 ≡ n = omega (arith, f.inside, ok.size) in
    let (after, e', m) =
      set_frame-Marked s.frames (n * 0x1000 % 2 ^ 32) ok.bytes (omega (arith, f.inside, ok.size)) in
    let d : n % 2 ^ 20 ≡ n = omega (arith, f.inside, ok.size) in
    let ne : (n == 0xffff_ffff) ≡ false = ==_ne n 0xffff_ffff (omega (arith, f.inside, ok.size)) in
    (
      (
        record page {
          valid = 1;
          rw = if is_writable == 0 then 0 else 1;
          user = if is_kernel == 0 then 1 else 0;
          frame = n;
        },
        record s { frames = after },
      ),
      rw (e', ne, d, give_frame),
      record {
        first = f;
        entry = refl;
        marked = subst (λ k. Marked s.frames k true after) e m;
        printed = refl;
      },
    )

give_frame_outside :
    (n : ℕ) (page : Page) (is_kernel is_writable : ℕ) (s : Phys)
    → set_frame s.frames (n * 0x1000 % 2 ^ 32) ≡ none
    → give_frame n page is_kernel is_writable s ≡ none
unfolding give_frame
give_frame_outside n page is_kernel is_writable s e = rw (e, give_frame)

-- With a free frame left, `alloc_frame` on an entry without a frame succeeds: the entry gets the
-- least free frame and the flags that were asked for, that frame and no other becomes used, and
-- nothing is printed.
pub alloc_frame-Given :
    (page : Page) (is_kernel is_writable : ℕ) (s : Phys)
    → IsPhys s
    → page.frame ≡ 0
    → (k : ℕ) → k < frame_count
    → used s.frames k ≡ false
    → (n : ℕ) × (out : Page × Phys) × (alloc_frame page is_kernel is_writable s ≡ some out)
      × Given page is_kernel is_writable s n out
unfolding alloc_frame
alloc_frame-Given page is_kernel is_writable s ok none_yet k inside free =
    elim (first_frame-IsFirstFree s.frames ok.bytes (omega (arith, ok.size))) [
      | inl f ↦
          let (out, e, g) =
            give_frame-Given page is_kernel is_writable s (first_frame s.frames) ok f in
          (first_frame s.frames, out, rw ((==_iff page.frame 0).1 none_yet) e, g)
      | inr (e, full) ↦ cc (full k (omega (arith, ok.size)), free)
    ]

-- With every frame used, `alloc_frame` on an entry without a frame goes on with frame index
-- 0xffffffff, and its write is outside of the bitmap.
pub alloc_frame_full :
    (page : Page) (is_kernel is_writable : ℕ) (s : Phys)
    → IsPhys s
    → page.frame ≡ 0
    → IsFull s.frames
    → alloc_frame page is_kernel is_writable s ≡ none
unfolding alloc_frame
alloc_frame_full page is_kernel is_writable s ok none_yet full =
    elim (first_frame-IsFirstFree s.frames ok.bytes (omega (arith, ok.size))) [
      | inl f ↦ cc (full (first_frame s.frames) f.inside, f.free)
      | inr (e, _) ↦
          rw ((==_iff page.frame 0).1 none_yet, e)
            (give_frame_outside 0xffff_ffff page is_kernel is_writable s
              (set_frame_outside s.frames (0xffff_ffff * 0x1000 % 2 ^ 32) (omega (arith, ok.size))))
    ]

-- What `free_frame` really does to an entry that has a frame: the entry loses its frame, and
-- the frame that becomes free is frame 0.
pub free_frame-clears_zero :
    (page : Page) (s : Phys)
    → IsPhys s
    → page.frame ≢ 0
    → page.frame < frame_count
    → (after : List ℕ) × (free_frame page s
        ≡ some (record page { frame = 0 }, record s { frames = after }))
      × Marked s.frames 0 false after
unfolding free_frame
free_frame-clears_zero page s ok has h =
    let e : page.frame / 0x1000 ≡ 0 = omega arith in
    let (after, e', m) = clear_frame-Marked s.frames page.frame ok.bytes (omega (arith, ok.size)) in
    (after, rw (==_ne page.frame 0 has, e'), subst (λ k. Marked s.frames k false after) e m)
