-- ===== src/Fs/Mount.antt =====
-- `initialise_initrd`: the nodes of the ramdisk, from the headers in memory.
use os_implement.Prelude.{
  ℕ, zero, suc, ◌+◌, ◌%◌, ◌^◌, ◌<◌, ◌≡◌, refl, sym, ap, ◌∙◌, some, List, [], ◌∷◌, ◌++◌, arith,
  codes, length, drop, get_elem?, eq_of_some,
}
use os_implement.Text.{strcpy}
use os_implement.Text.Laws.{nul_terminated, IsText, strcpy_lem}
use mathlib.Core.Path.{subst}
use os_implement.Fs.Node.{FsNode, Dirent, FileHeader, root, Initrd}
use os_implement.Heap.Bytes.{load32}
use os_implement.Fs.Initrd.{
  headers_at, headers_in, write_offsets, rounds_of, file_node, directory_node, init_nodes,
  initialise_initrd,
}
use os_implement.Fs.Vfs.{IsMounted}

-- A header whose name is a text that is not empty and ends in a NUL, and an array with room for it.
pub record CanName (h : FileHeader) (raw : List ℕ) : Type 0 where
  pub first : ℕ
  pub others : List ℕ
  pub rest : List ℕ
  pub name : h.name ≡ nul_terminated (first ∷ others) rest
  pub is_text : IsText (first ∷ others)
  pub room : length others < length raw

-- One array for each header.
pub data AreNamed : List FileHeader → List (List ℕ) → Type 0 where
  none_left : {names : List (List ℕ)} → AreNamed [] names
  named :
      {h : FileHeader} {hs : List FileHeader} {raw : List ℕ} {names : List (List ℕ)}
      → CanName h raw
      → AreNamed hs names
      → AreNamed (h ∷ hs) (raw ∷ names)

-- The header h' and the node n that a header h with the number i becomes: the offset is from the start
-- of memory, and the node has the name and the length of the file.
pub record IsFile (loc i : ℕ) (h h' : FileHeader) (n : FsNode) : Type 0 where
  pub header : h' ≡ record h { offset = (h.offset + loc) % 2 ^ 32 }
  pub chars : List ℕ
  pub rest : List ℕ
  pub tail : List ℕ
  pub name : h.name ≡ nul_terminated chars rest
  pub node : n ≡ file_node (chars ++ tail) i h.length

init_nodes_step :
    (loc i : ℕ) (h : FileHeader) (hs hs' : List FileHeader) (raw name : List ℕ)
    (names : List (List ℕ)) (nodes : List FsNode)
    → strcpy raw h.name ≡ some name
    → init_nodes loc (i + 1) hs names ≡ some (hs', nodes)
    → init_nodes loc i (h ∷ hs) (raw ∷ names)
      ≡ some
          (record h { offset = (h.offset + loc) % 2 ^ 32 } ∷ hs', file_node name i h.length ∷ nodes)
unfolding init_nodes
init_nodes_step loc i h hs hs' raw name names nodes e f = rw (e, f) refl

-- What the loop makes of the headers from number i on.
record Mounted (loc i : ℕ) (hs hs' : List FileHeader) (nodes : List FsNode) : Type 0 where
  size : length nodes ≡ length hs
  file_at :
      (k : ℕ) (h : FileHeader)
      → get_elem? hs k ≡ some h
      → (h' : FileHeader) × (n : FsNode) × (get_elem? hs' k ≡ some h')
        × (get_elem? nodes k ≡ some n)
        × IsFile loc (i + k) h h' n
  node_at :
      (k : ℕ) (n : FsNode)
      → get_elem? nodes k ≡ some n
      → (name : List ℕ) × (size : ℕ) × (n ≡ file_node name (i + k) size)

Mounted-cons :
    (loc i : ℕ) (h h' : FileHeader) (hs hs' : List FileHeader) (n : FsNode) (nodes : List FsNode)
    → IsFile loc i h h' n
    → Mounted loc (i + 1) hs hs' nodes
    → Mounted loc i (h ∷ hs) (h' ∷ hs') (n ∷ nodes)
Mounted-cons loc i h h' hs hs' n nodes f r = record {
  size = ap suc r.size;
  file_at = file_at';
  node_at = node_at';
}
  where
    file_at' :
        (k : ℕ) (g : FileHeader)
        → get_elem? (h ∷ hs) k ≡ some g
        → (g' : FileHeader) × (m : FsNode) × (get_elem? (h' ∷ hs') k ≡ some g')
          × (get_elem? (n ∷ nodes) k ≡ some m)
          × IsFile loc (i + k) g g' m
    file_at' zero g e =
        let same : h ≡ g = eq_of_some e in
        (
          h',
          n,
          refl,
          refl,
          subst (λ x. IsFile loc (i + 0) x h' n) same
              (subst (λ j. IsFile loc j h h' n) (omega arith) f),
        )
    file_at' (suc k) g e =
        let (g', m, a, b, c) = r.file_at k g e in
        (g', m, a, b, subst (λ j. IsFile loc j g g' m) (omega arith) c)

    node_at' :
        (k : ℕ) (m : FsNode)
        → get_elem? (n ∷ nodes) k ≡ some m
        → (name : List ℕ) × (size : ℕ) × (m ≡ file_node name (i + k) size)
    node_at' zero m e =
        let place : i ≡ i + 0 = omega arith in
        (
          f.chars ++ f.tail,
          h.length,
          sym (eq_of_some e) ∙ f.node ∙ ap (λ j. file_node (f.chars ++ f.tail) j h.length) place,
        )
    node_at' (suc k) m e =
        let (name, size, p) = r.node_at k m e in
        let place : i + 1 + k ≡ i + suc k = omega arith in
        (name, size, p ∙ ap (λ j. file_node name j size) place)

init_nodes-Mounted :
    (loc i : ℕ) (hs : List FileHeader) (names : List (List ℕ))
    → AreNamed hs names
    → (hs' : List FileHeader) × (nodes : List FsNode) × (init_nodes loc i hs names
        ≡ some (hs', nodes))
      × Mounted loc i hs hs' nodes
init_nodes-Mounted loc i [] names none_left = (
  [],
  [],
  unfold init_nodes in refl,
  record { size = refl; file_at = λ k h e. cc; node_at = λ k n e. cc },
)
init_nodes-Mounted loc i (h ∷ hs) [] x = elim x [ ]
init_nodes-Mounted loc i (h ∷ hs) (raw ∷ names) (named w ws) =
    let (hs', nodes, e, r) = init_nodes-Mounted loc (i + 1) hs names ws in
    let tail = drop (suc (length w.others)) raw in
    let chars = w.first ∷ w.others in
    let copied = ap (strcpy raw) w.name ∙ strcpy_lem w.first w.others w.rest raw w.is_text w.room in
    (
      record h { offset = (h.offset + loc) % 2 ^ 32 } ∷ hs',
      file_node (chars ++ tail) i h.length ∷ nodes,
      init_nodes_step loc i h hs hs' raw (chars ++ tail) names nodes copied e,
      Mounted-cons loc i h _ hs hs' _ nodes
          (record {
            header = refl;
            chars = chars;
            rest = w.rest;
            tail = tail;
            name = w.name;
            node = refl;
          })
          r,
    )

initialise_initrd_step :
    (loc : ℕ) (hs : List FileHeader) (memory : ℕ → ℕ) (raw_root raw_dev root_name dev_name : List ℕ)
    (raw : List (List ℕ)) (dirent : Dirent) (nodes : List FsNode)
    → strcpy raw_root (codes "initrd" ++ 0 ∷ []) ≡ some root_name
    → strcpy raw_dev (codes "dev" ++ 0 ∷ []) ≡ some dev_name
    → init_nodes loc 0 (headers_in memory loc) raw ≡ some (hs, nodes)
    → initialise_initrd loc memory raw_root raw_dev raw dirent
      ≡ some (
        root,
        record {
          nfiles = load32 memory loc;
          file_headers = hs;
          initrd_root = directory_node root_name;
          initrd_dev = directory_node dev_name;
          root_nodes = nodes;
          nroot_nodes = load32 memory loc;
          dirent = dirent;
          memory = write_offsets (loc + 4) hs memory;
        },
      )
unfolding initialise_initrd
initialise_initrd_step loc hs memory raw_root raw_dev root_name dev_name raw dirent nodes e f g =
    rw (e, f, g) refl

length-headers_at : (memory : ℕ → ℕ) (a n : ℕ) → length (headers_at memory a n) ≡ n
unfolding headers_at
length-headers_at memory a zero = refl
length-headers_at memory a (suc n) = ap suc (length-headers_at memory (a + 76) n)

-- The ramdisk of the headers in memory from an address on.
pub record IsRamdisk (loc : ℕ) (memory : ℕ → ℕ) (s : Initrd) : Type 0 where
  pub mounted : IsMounted s
  pub count : s.nroot_nodes ≡ load32 memory loc
  pub nodes : length s.root_nodes ≡ rounds_of (load32 memory loc)
  pub memory_lem : s.memory ≡ write_offsets (loc + 4) s.file_headers memory
  pub file_at :
      (k : ℕ) (h : FileHeader)
      → get_elem? (headers_in memory loc) k ≡ some h
      → (h' : FileHeader) × (n : FsNode) × (get_elem? s.file_headers k ≡ some h')
        × (get_elem? s.root_nodes k ≡ some n)
        × IsFile loc k h h' n

-- Where each header in memory has a name that is not empty and ends in a NUL, and each name field has
-- room for it: `initialise_initrd` returns the root, whose nodes are as the calls through nodes want them.
-- There is one node for each header that the loop goes over, in order, which starts with the name of the
-- file, has its length and can only be read; the offset of its header is from the start of memory, and is
-- written back to memory.
pub initialise_initrd-IsRamdisk :
    (loc : ℕ) (memory : ℕ → ℕ) (raw_root raw_dev : List ℕ) (raw : List (List ℕ)) (dirent : Dirent)
    → AreNamed (headers_in memory loc) raw
    → 5 < length raw_root
    → 2 < length raw_dev
    → (s : Initrd) × (initialise_initrd loc memory raw_root raw_dev raw dirent ≡ some (root, s))
      × IsRamdisk loc memory s
initialise_initrd-IsRamdisk loc memory raw_root raw_dev raw dirent ws long long' =
    let (hs, nodes, e, r) = init_nodes-Mounted loc 0 (headers_in memory loc) raw ws in
    (
      _,
      initialise_initrd_step loc hs memory raw_root raw_dev _ _ raw dirent nodes
          (strcpy_lem _ (codes "nitrd") [] raw_root (ground arith) long)
          (strcpy_lem _ (codes "ev") [] raw_dev (ground arith) long') e,
      record {
        mounted = record {
          root_flags = refl;
          root_readdir = refl;
          root_finddir = refl;
          file_flags =
              λ i m h. let (name, size, p) = r.node_at i m h in ap (λ (n : FsNode). n.flags) p;
          file_inode = λ i m h.
              let (name, size, p) = r.node_at i m h in ap (λ (n : FsNode). n.inode) p ∙ omega arith;
          file_read =
              λ i m h. let (name, size, p) = r.node_at i m h in ap (λ (n : FsNode). n.read) p;
          file_write =
              λ i m h. let (name, size, p) = r.node_at i m h in ap (λ (n : FsNode). n.write) p;
        };
        count = refl;
        nodes = r.size ∙ length-headers_at memory (loc + 4) (rounds_of (load32 memory loc));
        memory_lem = refl;
        file_at = λ k h p.
            let (h', n, a, b, c) = r.file_at k h p in
            (h', n, a, b, subst (λ j. IsFile loc j h h' n) (omega arith) c);
      },
    )
