-- ===== src/Frames/Tests.antt =====
-- The allocator on small bitmaps, and on one of all 4096 frames.
use os_implement.Prelude.{
  ℕ, zero, suc, ◌/◌, ◌<◌, ◌≡◌, ◌⊎◌, refl, false, none, some, List, [], ◌∷◌, replicate, arith,
  length-replicate, get_elem?, get_elem?-replicate, All-replicate,
}
use os_implement.Frames.{
  Page, Phys, set_frame, clear_frame, first_bit, first_frame_from, first_frame, give_frame,
  alloc_frame, free_frame,
}
use os_implement.Frames.Byte.{has_bit-full}
use os_implement.Frames.Bitmap.{IsBitmap, used, Marked}
use os_implement.Frames.First.{IsFirstFree, IsFull, first_frame-IsFirstFree}
use os_implement.Frames.Alloc.{
  IsPhys, Given, alloc_frame-Given, alloc_frame_full, free_frame-clears_zero,
}
use os_implement.Frames.Owner.{Entries, alloc, free, call, calls, IsOwned, calls-IsOwned}

abbrev three_bytes : List ℕ
three_bytes = 0xff ∷ 0xe0 ∷ 0x00 ∷ []

three_bytes-IsBitmap : IsBitmap three_bytes
three_bytes-IsBitmap = (omega arith, (omega arith, (omega arith, tt)))

first_frame_run : first_frame three_bytes ≡ 11
unfolding first_frame first_frame_from first_bit
first_frame_run = refl

first_frame_example :
    IsFirstFree three_bytes (first_frame three_bytes)
    ⊎ ((first_frame three_bytes ≡ 0xffff_ffff) × IsFull three_bytes)
first_frame_example = first_frame-IsFirstFree three_bytes three_bytes-IsBitmap (omega arith)

-- The frames of the kernel are used, the others are free.
abbrev pub some_used : Phys
some_used = record { frames = 0xff ∷ replicate 511 0; printed = [] }

abbrev all_used : Phys
all_used = record { frames = replicate 512 0xff; printed = [] }

pub some_used-IsPhys : IsPhys some_used
some_used-IsPhys = record {
  bytes = (omega arith, All-replicate (λ byte. byte < 256) 511 0 (omega arith));
  size = omega (arith, length-replicate {A = ℕ} 511 0);
}

all_used-IsPhys : IsPhys all_used
all_used-IsPhys = record {
  bytes = All-replicate (λ byte. byte < 256) 512 0xff (omega arith);
  size = omega (arith, length-replicate {A = ℕ} 512 0xff);
}

all_used-IsFull : IsFull all_used.frames
all_used-IsFull m h =
    rw
      (
        get_elem?-replicate {A = ℕ} 512 (m / 8) 0xff
            (omega (arith, length-replicate {A = ℕ} 512 0xff)),
        used,
      )
      (has_bit-full _ (omega arith))

abbrev no_page : Page
no_page = record { valid = 0; rw = 0; user = 0; accessed = 0; dirty = 0; unused = 0; frame = 0 }

alloc_frame_example :
    (n : ℕ) × (out : Page × Phys) × (alloc_frame no_page 0 1 some_used ≡ some out)
    × Given no_page 0 1 some_used n out
alloc_frame_example =
    alloc_frame-Given no_page 0 1 some_used some_used-IsPhys refl 8 (omega arith) refl

alloc_frame_full_example : alloc_frame no_page 0 1 all_used ≡ none
alloc_frame_full_example =
    alloc_frame_full no_page 0 1 all_used all_used-IsPhys refl all_used-IsFull

abbrev page_nine : Page
page_nine = record no_page { valid = 1; frame = 9 }

free_frame_example :
    (after : List ℕ) × (free_frame page_nine some_used
      ≡ some (record page_nine { frame = 0 }, record some_used { frames = after }))
    × Marked some_used.frames 0 false after
free_frame_example =
    free_frame-clears_zero page_nine some_used some_used-IsPhys (omega arith) (omega arith)

-- Two entries get frames 8 and 9, then the first gives its frame back.
abbrev entries : Entries
entries = record { pages = no_page ∷ no_page ∷ []; phys = some_used }

abbrev entries_after : Entries
entries_after = record {
  pages =
      record no_page { valid = 1; rw = 1 } ∷ record no_page { valid = 1; user = 1; frame = 9 } ∷ [];
  phys = record { frames = 0x7f ∷ 0xc0 ∷ replicate 510 0; printed = [] };
}

calls_run : calls (alloc 0 1 1 ∷ alloc 1 0 0 ∷ free 0 ∷ []) entries ≡ some entries_after
unfolding calls call alloc_frame free_frame give_frame set_frame clear_frame first_frame
    first_frame_from first_bit
calls_run = refl

no_frames : (i : ℕ) (p : Page) → get_elem? entries.pages i ≡ some p → p.frame ≡ 0
no_frames zero p h = ground (arith, h)
no_frames (suc zero) p h = ground (arith, h)
no_frames (suc (suc i)) p h = cc

entries-IsOwned : IsOwned entries
entries-IsOwned = record {
  phys = some_used-IsPhys;
  inside = λ i p h. omega (arith, no_frames i p h);
  marked = λ i p h ne. absurd (ne (no_frames i p h));
  alone = λ i j p q h k d ne. absurd (ne (no_frames i p h));
}

calls_example : IsOwned entries_after
calls_example =
    calls-IsOwned (alloc 0 1 1 ∷ alloc 1 0 0 ∷ free 0 ∷ []) entries entries_after entries-IsOwned
      calls_run
