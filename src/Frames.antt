-- ===== src/Frames.antt =====
-- The physical frame allocator of src/page.c: the bitmap `frames`, with one bit for each frame of
-- 4 KB, highest bit of a byte first, and the page entries that frames are given to.
-- `frames` is the list of its frames_bitmap_size bytes; an access outside of it is `none`.
pub mod Byte
pub mod Bitmap
pub mod First
pub mod Alloc
pub mod Owner
pub mod Count
pub mod Tests
use os_implement.Prelude.{
  ℕ, zero, suc, ◌+◌, ◌*◌, ◌/◌, ◌%◌, ◌^◌, bit_and, bit_or, Option, none, some, List, [], ◌∷◌, ◌==◌,
  if◌then◌else◌, get_elem?, set,
}
use os_implement.Prelude.Bits.{not32}

-- 0x80 >> offset
abbrev pub mask : ℕ → ℕ
mask offset = 0x80 / 2 ^ offset

-- FRAME_COUNT = MEMORY_SIZE / PAGE_SIZE
abbrev pub frame_count : ℕ
frame_count = 0x1000000 / 0x1000

-- frames[index] = f(frames[index])
abbrev pub update_byte : List ℕ → ℕ → (ℕ → ℕ) → Option (List ℕ)
update_byte frames index f = elim (get_elem? frames index) [
  | none ↦ none
  | some byte ↦ some (set frames index (f byte))
]

-- The byte with the bit at an offset set, and with it cleared (`uint8`, so cut to 8 bits).
abbrev pub set_bit : ℕ → ℕ → ℕ
set_bit offset byte = bit_or byte (mask offset)

abbrev pub clear_bit : ℕ → ℕ → ℕ
clear_bit offset byte = bit_and byte (not32 (mask offset)) % 2 ^ 8

unfoldable pub set_frame : List ℕ → ℕ → Option (List ℕ)
set_frame frames frame_addr =
    let frame_index = frame_addr / 0x1000 in
    update_byte frames (frame_index / 8) (set_bit (frame_index % 8))

unfoldable pub clear_frame : List ℕ → ℕ → Option (List ℕ)
clear_frame frames frame_addr =
    let frame_index = frame_addr / 0x1000 in
    update_byte frames (frame_index / 8) (clear_bit (frame_index % 8))

unfoldable pub is_in_frame : List ℕ → ℕ → Option ℕ
is_in_frame frames frame_addr =
    let frame_index = frame_addr / 0x1000 in
    elim (get_elem? frames (frame_index / 8)) [
      | none ↦ none
      | some byte ↦ some (bit_and byte (mask (frame_index % 8)))
    ]

-- The loop over j of `first_frame`, with the rounds left.
unfoldable pub first_bit : ℕ → ℕ → ℕ → Option ℕ
first_bit zero j byte = none
first_bit (suc rounds) j byte =
    let rest = first_bit rounds (j + 1) byte in
    if bit_or (not32 (mask j)) byte == 0xffff_ffff then rest else some j

-- The loop over i, on the bytes from frames[i] on; -1 is the `uint32` 0xffffffff.
unfoldable pub first_frame_from : ℕ → List ℕ → ℕ
unfolding first_bit
first_frame_from i [] = 0xffff_ffff
first_frame_from i (byte ∷ bytes) =
    let rest = first_frame_from (i + 1) bytes in
    if byte == 0xff
    then rest
    else elim (first_bit 8 0 byte) [ none ↦ rest | some j ↦ (i * 8 + j) % 2 ^ 32 ]

unfoldable pub first_frame : List ℕ → ℕ
unfolding first_frame_from
first_frame frames = first_frame_from 0 frames

-- `page_struct`: bit fields of widths 1, 1, 1, 1, 1, 7 and 20.
pub record Page : Type 0 where
  pub valid : ℕ
  pub rw : ℕ
  pub user : ℕ
  pub accessed : ℕ
  pub dirty : ℕ
  pub unused : ℕ
  pub frame : ℕ

-- What the allocator prints.
pub data Warning : Type 0 where
  no_free_frame : Warning

pub record Phys : Type 0 where
  pub frames : List ℕ
  pub printed : List Warning

-- The `else` of `alloc_frame`, at the index that `first_frame` returned.
unfoldable pub give_frame : ℕ → Page → ℕ → ℕ → Phys → Option (Page × Phys)
unfolding set_frame
give_frame frame_index page is_kernel is_writable s =
    let printed = if frame_index == 0xffff_ffff then no_free_frame ∷ s.printed else s.printed in
    elim (set_frame s.frames (frame_index * 0x1000 % 2 ^ 32)) [
      | none ↦ none
      | some frames ↦ some (
        record page {
          valid = 1;
          rw = if is_writable == 0 then 0 else 1;
          user = if is_kernel == 0 then 1 else 0;
          frame = frame_index % 2 ^ 20;
        },
        record { frames = frames; printed = printed },
      )
    ]

unfoldable pub alloc_frame : Page → ℕ → ℕ → Phys → Option (Page × Phys)
unfolding give_frame first_frame
alloc_frame page is_kernel is_writable s =
    if page.frame == 0
    then give_frame (first_frame s.frames) page is_kernel is_writable s
    else some (page, s)

-- The address that is cleared is `page->frame`, as the source has it.
unfoldable pub free_frame : Page → Phys → Option (Page × Phys)
unfolding clear_frame
free_frame page s =
    if page.frame == 0 then some (page, s) else elim (clear_frame s.frames page.frame) [
      | none ↦ none
      | some frames ↦ some (record page { frame = 0 }, record s { frames = frames })
    ]
