-- ===== src/Frames/Owner.antt =====
-- Many page entries over one bitmap: which entry holds which frame, along any calls of
-- `alloc_frame` and `free_frame`.
use os_implement.Prelude.{
  ℕ, zero, suc, ◌<◌, ◌≡◌, ◌≢◌, ◌⊎◌, inl, inr, refl, ap, Bool, true, false, Option, none, some, List,
  [], ◌∷◌, ◌==◌, arith, ==_iff, Bool-cases, eq_of_some, Option-cases, get_elem?, set,
}
use mathlib.Core.Path.{subst}
use os_implement.Frames.{Page, Phys, first_frame, alloc_frame, free_frame, frame_count}
use os_implement.Frames.Bitmap.{used, Marked}
use os_implement.Frames.First.{first_frame-IsFirstFree}
use os_implement.Frames.Alloc.{
  IsPhys, Given, alloc_frame-Given, alloc_frame_full, free_frame-clears_zero,
}

pub record Entries : Type 0 where
  pub pages : List Page
  pub phys : Phys

-- A call on the entry at an index.
pub data Call : Type 0 where
  alloc : ℕ → ℕ → ℕ → Call
  free : ℕ → Call

-- Writing a call's result back.
abbrev put_back : Entries → ℕ → Option (Page × Phys) → Option Entries
put_back s i none = none
put_back s i (some (page, phys)) = some (record { pages = set s.pages i page; phys = phys })

-- `none`: there is no such entry, or the call writes outside of the bitmap.
unfoldable pub call : Call → Entries → Option Entries
unfolding alloc_frame free_frame
call (alloc i is_kernel is_writable) s = elim (get_elem? s.pages i) [
  | none ↦ none
  | some page ↦ put_back s i (alloc_frame page is_kernel is_writable s.phys)
]
call (free i) s = elim (get_elem? s.pages i) [
  | none ↦ none
  | some page ↦ put_back s i (free_frame page s.phys)
]

unfoldable pub calls : List Call → Entries → Option Entries
unfolding call
calls [] s = some s
calls (c ∷ cs) s = elim (call c s) [ none ↦ none | some s' ↦ calls cs s' ]

-- Frame 0 stands for "no frame" in an entry.
pub record IsOwned (s : Entries) : Type 0 where
  pub phys : IsPhys s.phys
  pub inside : (i : ℕ) (p : Page) → get_elem? s.pages i ≡ some p → p.frame < frame_count
  pub marked :
      (i : ℕ) (p : Page)
      → get_elem? s.pages i ≡ some p
      → p.frame ≢ 0
      → used s.phys.frames p.frame ≡ true
  pub alone :
      (i j : ℕ) (p q : Page)
      → get_elem? s.pages i ≡ some p
      → get_elem? s.pages j ≡ some q
      → i ≢ j
      → p.frame ≢ 0
      → p.frame ≢ q.frame

-- An entry after a write at index i is the one written, or an old one at another index.
after_set :
    (pages : List Page) (i j : ℕ) (page p : Page)
    → get_elem? (set pages i page) j ≡ some p
    → ((j ≡ i) × (p ≡ page)) ⊎ ((j ≢ i) × (get_elem? pages j ≡ some p))
after_set [] i j page p h = cc
after_set (x ∷ xs) zero zero page p h = inl (refl, ground arith)
after_set (x ∷ xs) zero (suc j) page p h = inr (ground arith, h)
after_set (x ∷ xs) (suc i) zero page p h = inr (ground arith, h)
after_set (x ∷ xs) (suc i) (suc j) page p h = elim (after_set xs i j page p h) [
  | inl (e, e') ↦ inl (ap suc e, e')
  | inr (d, e) ↦ inr (ground arith, e)
]

-- One entry is replaced, and the bitmap keeps the marks of all frames that other entries hold.
module _ (s : Entries) (own : IsOwned s) (i : ℕ) (page : Page) (phys : Phys) (ok : IsPhys phys)
    (small : page.frame < frame_count)
    (own_mark : page.frame ≢ 0 → used phys.frames page.frame ≡ true)
    (keeps : (n : ℕ) → n ≢ 0 → used s.phys.frames n ≡ true → used phys.frames n ≡ true)
    (fresh : (j : ℕ) (q : Page)
      → j ≢ i
      → get_elem? s.pages j ≡ some q
      → page.frame ≢ 0
      → page.frame ≢ q.frame) where
  IsOwned-set : IsOwned (record { pages = set s.pages i page; phys = phys })
  IsOwned-set = record {
    phys = ok;
    inside = λ j p h. elim (after_set s.pages i j page p h) [
      | inl (e, e') ↦ rw e' small
      | inr (d, h') ↦ own.inside j p h'
    ];
    marked = λ j p h ne. elim (after_set s.pages i j page p h) [
      | inl (e, e') ↦ rw e' (own_mark (λ z. ne (rw e' z)))
      | inr (d, h') ↦ keeps p.frame ne (own.marked j p h' ne)
    ];
    alone = λ j k p q hp hq d ne. elim (after_set s.pages i j page p hp) [
      | inl (e, e') ↦ elim (after_set s.pages i k page q hq) [
        | inl (f, f') ↦ absurd (d (omega arith))
        | inr (f, hq') ↦ rw e' (fresh k q f hq' (λ z. ne (rw e' z)))
      ]
      | inr (e, hp') ↦ elim (after_set s.pages i k page q hq) [
        | inl (f, f') ↦
            let z = fresh j p e hp' in rw f' (λ g. z (λ w. ne (omega arith)) (omega arith))
        | inr (f, hq') ↦ own.alone j k p q hp' hq' d ne
      ]
    ];
  }

-- The bitmap after a frame was given out, or frame 0 was cleared, is still one of all frames.
IsPhys-Marked :
    (s s' : Phys) (n : ℕ) (v : Bool) → IsPhys s → Marked s.frames n v s'.frames → IsPhys s'
IsPhys-Marked s s' n v ok m = record { bytes = m.bytes; size = omega (arith, m.size, ok.size) }

module _ (s : Entries) (own : IsOwned s) (i : ℕ) (p : Page)
    (here : get_elem? s.pages i ≡ some p) where
  keep-IsOwned : IsOwned (record { pages = set s.pages i p; phys = s.phys })
  keep-IsOwned =
      IsOwned-set s own i p s.phys own.phys (own.inside i p here) (own.marked i p here) (λ n z u. u)
        (λ j q d h ne. own.alone i j p q here h (λ e. d (omega arith)) ne)

  Given-IsOwned :
      (is_kernel is_writable n : ℕ) (out : Page × Phys)
      → Given p is_kernel is_writable s.phys n out
      → IsOwned (record { pages = set s.pages i out.0; phys = out.1 })
  Given-IsOwned is_kernel is_writable n out g =
      let e : out.0.frame ≡ n = ap (λ (x : Page). x.frame) g.entry in
      let self = g.marked.marks n in
      IsOwned-set s own i out.0 out.1 (IsPhys-Marked s.phys out.1 n true own.phys g.marked)
        (omega (arith, g.first.inside, own.phys.size)) (λ z. rw e (ground (arith, self)))
        (λ m z u. ground (arith, g.marked.marks m))
        (λ j q d h ne eq.
          let u = own.marked j q h (λ z. ne (omega arith)) in
          let v : q.frame ≡ n = omega arith in cc (g.first.free, ap (used s.phys.frames) v))

  freed-IsOwned :
      (after : List ℕ)
      → Marked s.phys.frames 0 false after
      → IsOwned (record {
        pages = set s.pages i (record p { frame = 0 });
        phys = record s.phys { frames = after };
      })
  freed-IsOwned after m =
      IsOwned-set s own i (record p { frame = 0 }) (record s.phys { frames = after })
        (IsPhys-Marked s.phys (record s.phys { frames = after }) 0 false own.phys m) (omega arith)
        (λ z. absurd (z refl)) (λ n z u. ground (arith, m.marks n)) (λ j q d h ne. absurd (ne refl))

  conclude :
      (r : Option (Page × Phys)) (out : Page × Phys) (s' : Entries)
      → r ≡ some out
      → IsOwned (record { pages = set s.pages i out.0; phys = out.1 })
      → put_back s i r ≡ some s'
      → IsOwned s'
  conclude r out s' e o h = subst IsOwned (eq_of_some (subst (λ x. put_back s i x ≡ some s') e h)) o

  alloc-IsOwned :
      (is_kernel is_writable : ℕ) (s' : Entries)
      → put_back s i (alloc_frame p is_kernel is_writable s.phys) ≡ some s'
      → IsOwned s'
  unfolding alloc_frame
  alloc-IsOwned is_kernel is_writable s' h = elim (Bool-cases (p.frame == 0)) [
    | inl z ↦
        let z' : p.frame ≡ 0 = (==_iff p.frame 0).0 z in
        elim (first_frame-IsFirstFree s.phys.frames own.phys.bytes (omega (arith, own.phys.size))) [
          | inl f ↦
              let (n, out, e, g) =
                alloc_frame-Given p is_kernel is_writable s.phys own.phys z'
                  (first_frame s.phys.frames) (omega (arith, f.inside, own.phys.size)) f.free in
              conclude _ out s' e (Given-IsOwned is_kernel is_writable n out g) h
          | inr (e, full) ↦ cc (
              subst (λ x. put_back s i x ≡ some s')
                (alloc_frame_full p is_kernel is_writable s.phys own.phys z' full) h)
        ]
    | inr d ↦ conclude _ (p, s.phys) s' (rw d) keep-IsOwned h
  ]

  free-IsOwned : (s' : Entries) → put_back s i (free_frame p s.phys) ≡ some s' → IsOwned s'
  unfolding free_frame
  free-IsOwned s' h = elim (Bool-cases (p.frame == 0)) [
    | inl z ↦ conclude _ (p, s.phys) s' (rw z) keep-IsOwned h
    | inr d ↦
        let (after, e, m) =
          free_frame-clears_zero p s.phys own.phys (ground arith) (own.inside i p here) in
        conclude _ (record p { frame = 0 }, record s.phys { frames = after }) s' e
          (freed-IsOwned after m) h
  ]

-- One call keeps the ownership of frames.
call-IsOwned : (c : Call) (s s' : Entries) → IsOwned s → call c s ≡ some s' → IsOwned s'
unfolding call
call-IsOwned (alloc i is_kernel is_writable) s s' own h =
    elim (Option-cases (get_elem? s.pages i)) [
      | inl e ↦ absurd (ground (arith, e))
      | inr (p, e) ↦ alloc-IsOwned s own i p e is_kernel is_writable s' (ground (arith, e))
    ]
call-IsOwned (free i) s s' own h = elim (Option-cases (get_elem? s.pages i)) [
  | inl e ↦ absurd (ground (arith, e))
  | inr (p, e) ↦ free-IsOwned s own i p e s' (ground (arith, e))
]

-- Along any sequence of `alloc_frame` and `free_frame` calls that stays inside the bitmap, no two
-- page entries hold the same frame other than 0, and every such frame is marked as used.
pub calls-IsOwned :
    (cs : List Call) (s s' : Entries) → IsOwned s → calls cs s ≡ some s' → IsOwned s'
unfolding calls
calls-IsOwned [] s s' own h = subst IsOwned (eq_of_some h) own
calls-IsOwned (c ∷ cs) s s' own h = elim (Option-cases (call c s)) [
  | inl e ↦ absurd (ground (arith, e))
  | inr (t, e) ↦ calls-IsOwned cs t s' (call-IsOwned c s t own e) (ground (arith, e))
]
