-- ===== src/Fs/Listing.antt =====
-- Listing the root directory and finding each file by the name that the listing returned.
use os_implement.Prelude.{
  ℕ, suc, ◌+◌, ◌-◌, ◌%◌, ◌^◌, ◌≤◌, ◌<◌, ◌≡◌, ◌≢◌, refl, ap, ◌∙◌, some, List, [], ◌∷◌, ◌++◌, lt→ltb,
  get_elem?, set, codes, drop, length, length-append, length-drop, lt_of_get_elem?, get_elem?_lt,
  arith, ==_ne,
}
use os_implement.Text.{text, strcmp, differ, strcpy, strlen, put}
use os_implement.Text.Laws.{nul_terminated, IsText, strcmp-differ, strcpy_lem, strlen-length}
use os_implement.Fs.Node.{FsNode, Dirent, Initrd, root, file}
use os_implement.Fs.Initrd.{rounds_of, find_name, initrd_finddir, initrd_readdir}
use os_implement.Fs.Dir.{IsNamed, Differs, find_name-first}

-- The files of the ramdisk have the names of the list, in order: texts that are not empty, fit the
-- entry that `initrd_readdir` returns, are all different, and are not "dev".
pub record IsDirectory (s : Initrd) (names : List (List ℕ)) : Type 0 where
  pub count : s.nroot_nodes ≡ length names
  pub few : length names < 2 ^ 31
  pub buffer : length s.dirent.name ≡ 128
  pub named :
      (i : ℕ) (t : List ℕ)
      → get_elem? names i ≡ some t
      → (m : FsNode) × (get_elem? s.root_nodes i ≡ some m) × IsNamed m t
  pub letters : (i : ℕ) (t : List ℕ) → get_elem? names i ≡ some t → (t ≢ []) × (length t < 128)
  pub distinct :
      (i j : ℕ) (t : List ℕ) → get_elem? names i ≡ some t → get_elem? names j ≡ some t → i ≡ j
  pub no_dev : (i : ℕ) → get_elem? names i ≢ some (codes "dev")

-- A NUL put behind a text ends it there.
text-put :
    (t old : List ℕ)
    → IsText t
    → 0 < length old
    → (out : List ℕ) × (put (t ++ old) (length t) 0 ≡ some out) × (text out ≡ t)
text-put t old h room = (
  set (t ++ old) (length t) 0,
  unfold put in rw (lt→ltb (length t) (length (t ++ old)) (omega (arith, length-append t old))),
  ends t old h room,
)
  where
    ends : (t old : List ℕ) → IsText t → 0 < length old → text (set (t ++ old) (length t) 0) ≡ t
    ends [] [] h room = elim room [ ]
    ends [] (x ∷ xs) h room = refl
    ends (c ∷ cs) old h room = rw (==_ne c 0 h.0, ends cs old h.1 room)

-- What the three string calls of `initrd_readdir` make of a name.
copy_name :
    (t rest buffer : List ℕ)
    → IsText t
    → t ≢ []
    → length t < length buffer
    → (copied out : List ℕ) × (strcpy buffer (nul_terminated t rest) ≡ some copied)
      × (strlen (nul_terminated t rest) ≡ some (length t))
      × (put copied (length t) 0 ≡ some out)
      × (text out ≡ t)
copy_name [] rest buffer h ne room = absurd (ne refl)
copy_name (x ∷ xs) rest buffer h ne room =
    let old = drop (suc (length xs)) buffer in
    let (out, e, e') =
      text-put (x ∷ xs) old h (omega (arith, length-drop (suc (length xs)) buffer)) in
    (
      (x ∷ xs) ++ old,
      out,
      strcpy_lem x xs rest buffer h (omega arith),
      strlen-length (x ∷ xs) rest h,
      e,
      e',
    )

readdir_step :
    (s : Initrd) (i : ℕ) (m : FsNode) (copied out : List ℕ) (len : ℕ)
    → i < s.nroot_nodes
    → s.nroot_nodes < 2 ^ 31
    → get_elem? s.root_nodes i ≡ some m
    → strcpy s.dirent.name m.name ≡ some copied
    → strlen m.name ≡ some len
    → put copied len 0 ≡ some out
    → let entry : Dirent = record { name = out; ino = m.inode } in
      initrd_readdir s root (i + 1) ≡ some (some entry, record s { dirent = entry })
unfolding initrd_readdir
readdir_step s i m copied out len lt few p q r w =
    let wrap : (i + 1 + 2 ^ 32 - 1) % 2 ^ 32 ≡ i = omega arith in
    let back : get_elem? s.root_nodes (i + 1 - 1) ≡ some m =
      ap (get_elem? s.root_nodes) (omega arith) ∙ p in
    ground (arith, wrap, back, q, r, w)

finddir_step :
    (s : Initrd) (name : List ℕ) (a b i : ℕ)
    → strcmp name (codes "dev" ++ 0 ∷ []) ≡ some (differ a b)
    → s.nroot_nodes < 2 ^ 31
    → find_name s.nroot_nodes 0 s.root_nodes name ≡ some (some i)
    → initrd_finddir s root name ≡ some (some (file i))
unfolding initrd_finddir
finddir_step s name a b i e few f =
    let all : rounds_of s.nroot_nodes ≡ s.nroot_nodes = ground arith in
    let g : find_name (rounds_of s.nroot_nodes) 0 s.root_nodes name ≡ some (some i) =
      ap (λ n. find_name n 0 s.root_nodes name) all ∙ f in
    rw (e, g) refl

-- The name of file i finds file i.
finddir_name :
    (s : Initrd) (names : List (List ℕ)) (i : ℕ) (t us : List ℕ)
    → IsDirectory s names
    → get_elem? names i ≡ some t
    → initrd_finddir s root (nul_terminated t us) ≡ some (some (file i))
finddir_name s names i t us ok p =
    let (m, q, named) = ok.named i t p in
    let i_in : i < s.nroot_nodes = omega (arith, lt_of_get_elem? names i p, ok.count) in
    let (a, b, e) =
      strcmp-differ t (codes "dev") us [] named.letters dev_letters
        (λ d. ok.no_dev i (p ∙ ap some d)) in
    finddir_step s (nul_terminated t us) a b i e (omega (arith, ok.count, ok.few)) (
      find_name-first s.root_nodes t us named.letters s.nroot_nodes 0 i m (omega arith)
        (omega arith) q named earlier)
  where
    dev_letters : IsText (codes "dev")
    dev_letters =
        (λ z. absurd (omega arith), (λ z. absurd (omega arith), (λ z. absurd (omega arith), tt)))

    earlier : (j : ℕ) → 0 ≤ j → j < i → Differs s.root_nodes t j
    earlier j h l =
        let (u, r) = get_elem?_lt names j (omega (arith, lt_of_get_elem? names i p)) in
        let (n, r', named') = ok.named j u r in
        (n, u, r', named', λ e. absurd (omega (arith, ok.distinct j i t (r ∙ ap some e) p)))

-- Listing the root directory at index i + 1 gives the name and the inode of file i, and searching
-- the root for that name, however it is followed in memory, finds file i.
pub readdir-finddir :
    (s : Initrd) (names : List (List ℕ)) (i : ℕ) (t us : List ℕ)
    → IsDirectory s names
    → get_elem? names i ≡ some t
    → (entry : Dirent) × (m : FsNode) × (initrd_readdir s root (i + 1)
        ≡ some (some entry, record s { dirent = entry }))
      × (text entry.name ≡ t)
      × (get_elem? s.root_nodes i ≡ some m)
      × (entry.ino ≡ m.inode)
      × (initrd_finddir s root (nul_terminated t us) ≡ some (some (file i)))
readdir-finddir s names i t us ok p =
    let (m, q, named) = ok.named i t p in
    let (ne, fits) = ok.letters i t p in
    let i_in : i < s.nroot_nodes = omega (arith, lt_of_get_elem? names i p, ok.count) in
    let (copied, out, e1, e2, e3, e4) =
      copy_name t named.rest s.dirent.name named.letters ne (omega (arith, ok.buffer)) in
    (
      record { name = out; ino = m.inode },
      m,
      readdir_step s i m copied out (length t) i_in (omega (arith, ok.count, ok.few)) q
          (ap (strcpy s.dirent.name) named.field ∙ e1) (ap strlen named.field ∙ e2) e3,
      e4,
      q,
      refl,
      finddir_name s names i t us ok p,
    )
