-- ===== src/Paging/Entry.antt =====
-- The clone of one entry of a page table.
use os_implement.Prelude.{
  ℕ, ◌+◌, ◌*◌, ◌%◌, ◌^◌, ◌≤◌, ◌<◌, ◌≡◌, ◌≢◌, refl, sym, ap, ◌∙◌, inl, inr, true, false, some, List,
  [], ◌∷◌, ◌++◌, ◌==◌, if◌then◌else◌, arith, Bool-cases, ==_iff, ==_ne,
}
use mathlib.Core.List.{append-nil}
use os_implement.Frames.{Page, Phys, alloc_frame, frame_count}
use os_implement.Frames.Bitmap.{used}
use os_implement.Frames.Alloc.{IsPhys, alloc_frame-Given}
use os_implement.Frames.Count.{free_count, free_count-Marked, free_count_pos}
use os_implement.Paging.{Vm, zero_page, copy_flag, clone_page}

-- Frame 0, which stands for "no frame" in an entry, is not given out.
pub record IsMemory (s : Vm) : Type 0 where
  pub phys : IsPhys s.phys
  pub zero_used : used s.phys.frames 0 ≡ true

abbrev pub left : Vm → ℕ
left s = free_count s.phys.frames frame_count

-- How many entries have a frame.
abbrev pub framed : List Page → ℕ
framed [] = 0
framed (p ∷ ps) = (if p.frame == 0 then 0 else 1) + framed ps

-- An entry that stands for a copy of the frame of p: writable, accessed and dirty as p is, always
-- valid and always open to the user.
pub record IsCopy (p q : Page) : Type 0 where
  pub valid : q.valid ≡ 1
  pub rw : q.rw ≡ copy_flag p.rw 0
  pub user : q.user ≡ 1
  pub accessed : q.accessed ≡ copy_flag p.accessed 0
  pub dirty : q.dirty ≡ copy_flag p.dirty 0
  pub framed : q.frame ≢ 0

-- What one entry becomes.
pub record Cloned (p q : Page) (s s' : Vm) : Type 0 where
  pub absent : p.frame ≡ 0 → q ≡ zero_page
  pub copied : p.frame ≢ 0 → IsCopy p q
  pub fresh : q.frame ≢ 0 → used s.phys.frames q.frame ≡ false
  pub taken : q.frame ≢ 0 → used s'.phys.frames q.frame ≡ true

-- What stays of a memory, and what its frames become.
pub record Grown (n : ℕ) (s s' : Vm) : Type 0 where
  pub memory : IsMemory s'
  pub tables : s'.tables ≡ s.tables
  pub left_over : left s' + n ≡ left s
  pub kept : (f : ℕ) → used s.phys.frames f ≡ true → used s'.phys.frames f ≡ true

-- The frames copied: from that of each entry to that of its clone.
abbrev pub copied : List Page → List Page → List (ℕ × ℕ)
copied [] qs = []
copied (p ∷ ps) [] = []
copied (p ∷ ps) (q ∷ qs) =
    (if p.frame == 0 then [] else (p.frame * 0x1000 % 2 ^ 32, q.frame * 0x1000 % 2 ^ 32) ∷ [])
    ++ copied ps qs

clone_page_absent : (p : Page) (s : Vm) → p.frame ≡ 0 → clone_page p s ≡ some (zero_page, s)
unfolding clone_page
clone_page_absent p s e = rw ((==_iff p.frame 0).1 e)

clone_page_step :
    (p : Page) (s : Vm) (out : Page × Phys)
    → p.frame ≢ 0
    → alloc_frame zero_page 0 0 s.phys ≡ some out
    → clone_page p s
      ≡ some (
        record out.0 {
          valid = copy_flag p.valid out.0.valid;
          rw = copy_flag p.rw out.0.rw;
          user = copy_flag p.user out.0.user;
          accessed = copy_flag p.accessed out.0.accessed;
          dirty = copy_flag p.dirty out.0.dirty;
        },
        record s {
          phys = out.1;
          copies = s.copies ++ (p.frame * 0x1000 % 2 ^ 32, out.0.frame * 0x1000 % 2 ^ 32) ∷ [];
        },
      )
unfolding clone_page
clone_page_step p s out ne e = rw (==_ne p.frame 0 ne, e)

pub clone_page-Cloned :
    (p : Page) (s : Vm)
    → IsMemory s
    → framed (p ∷ []) ≤ left s
    → (q : Page) × (s' : Vm) × (clone_page p s ≡ some (q, s'))
      × Cloned p q s s'
      × Grown (framed (p ∷ [])) s s'
      × (s'.copies ≡ s.copies ++ copied (p ∷ []) (q ∷ []))
clone_page-Cloned p s ok room = elim (Bool-cases (p.frame == 0)) [
  | inl e ↦
      let z : p.frame ≡ 0 = (==_iff p.frame 0).0 e in
      (
        zero_page,
        s,
        clone_page_absent p s z,
        record {
          absent = λ h. refl;
          copied = λ h. absurd (h z);
          fresh = λ h. absurd (h refl);
          taken = λ h. absurd (h refl);
        },
        record { memory = ok; tables = refl; left_over = ground arith; kept = λ f h. h },
        rw e (sym (append-nil s.copies)),
      )
  | inr d ↦
      let ne : p.frame ≢ 0 = ground arith in
      let (k, inside, free) = free_count_pos s.phys.frames frame_count (ground arith) in
      let (n, out, e, g) = alloc_frame-Given zero_page 0 0 s.phys ok.phys refl k inside free in
      let size : n < frame_count = omega (arith, g.first.inside, ok.phys.size) in
      let f : out.0.frame ≡ n = ap (λ (x : Page). x.frame) g.entry in
      let nz : n ≢ 0 = λ z. cc (ap (used s.phys.frames) z, g.first.free, ok.zero_used) in
      (
        _,
        _,
        clone_page_step p s out ne e,
        record {
          absent = λ h. absurd (ne h);
          copied = λ h. ground (arith, g.entry);
          fresh = λ h. ap (used s.phys.frames) f ∙ g.first.free;
          taken = λ h. ground (arith, ap (used out.1.frames) f, g.marked.marks n);
        },
        record {
          memory = record {
            phys = record {
              bytes = g.marked.bytes;
              size = omega (arith, g.marked.size, ok.phys.size);
            };
            zero_used = ground (arith, g.marked.marks 0);
          };
          tables = refl;
          left_over = ground (
            arith,
            free_count-Marked s.phys.frames out.1.frames n frame_count g.marked g.first.free,
          );
          kept = λ m h. ground (arith, g.marked.marks m);
        },
        rw d,
      )
]
