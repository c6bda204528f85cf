-- ===== src/Text/Tests.antt =====
-- Copying a short text, and four bytes of memory.
use os_implement.Prelude.{◌≡◌, refl, some, [], ◌∷◌, ◌++◌, codes}
use os_implement.Heap.Bytes.{load8, store8, load32}
use os_implement.Text.{put, strcpy_from, strcpy}
use os_implement.Text.Copy.{memset, memcpy}

strcpy_run : strcpy (9 ∷ 9 ∷ 9 ∷ []) (codes "ls" ++ 0 ∷ []) ≡ some (codes "ls" ++ 9 ∷ [])
unfolding strcpy strcpy_from put
strcpy_run = refl

-- 0xffffffff has the last two bytes overwritten by the first two of 0x3020100.
copy_run : load32 (memcpy 0x102 0 2 (memset 0x100 0xff 4 (λ a. a))) 0x100 ≡ 0x100_ffff
unfolding memset memcpy load32 load8 store8
copy_run = refl
