-- ===== src/Fs/Initrd.antt =====
-- The methods of the ramdisk, src/initrd.c. `none` is an access outside of an array.
use os_implement.Prelude.{
  ◌>>=◌, ℕ, zero, suc, ◌+◌, ◌-◌, ◌%◌, ◌^◌, Bool, true, false, ◌&&◌, Option, none, some, List, [],
  ◌∷◌, ◌++◌, ◌==◌, ltb, leb, if◌then◌else◌, get_elem?, set, codes, take, length,
}
use os_implement.Text.{strlen, equal, differ, strcmp, put, strcpy}
use os_implement.Heap.Bytes.{load8, load32, store32}
use os_implement.Fs.Node.{
  FsNode, Dirent, FileHeader, NodeRef, root, dev, file, Initrd, fs_file, fs_directory,
}

-- memcpy from memory: the bytes from an address on.
unfoldable pub load_bytes : (ℕ → ℕ) → ℕ → ℕ → List ℕ
load_bytes memory a zero = []
load_bytes memory a (suc n) = memory (a % 2 ^ 32) ∷ load_bytes memory (a + 1) n

-- memcpy to memory.
unfoldable pub store_bytes : (ℕ → ℕ) → ℕ → List ℕ → ℕ → ℕ
store_bytes memory a [] = memory
store_bytes memory a (b ∷ bs) =
    store_bytes (λ i. if i == a % 2 ^ 32 then b else memory i) (a + 1) bs

-- The size that `initrd_read` and `initrd_write` go on with.
abbrev pub clamp : ℕ → ℕ → ℕ → ℕ
clamp length offset size = if ltb length ((offset + size) % 2 ^ 32) then length - offset else size

-- The bytes put into the buffer; the function returns their number.
unfoldable pub initrd_read : Initrd → ℕ → ℕ → ℕ → Option (List ℕ)
initrd_read s inode offset size = do
  header ← get_elem? s.file_headers inode
  if ltb header.length offset
      then some []
      else some (load_bytes s.memory (header.offset + offset) (clamp header.length offset size))

-- The buffer has at least `size` bytes. No value is returned past the bounds check.
unfoldable pub initrd_write : Initrd → ℕ → ℕ → ℕ → List ℕ → Option Initrd
initrd_write s inode offset size buffer = do
  header ← get_elem? s.file_headers inode
  if ltb header.length offset
      then some s
      else some (record s {
        memory =
            store_bytes s.memory (header.offset + offset)
              (take (clamp header.length offset size) buffer);
      })

abbrev pub is_root : NodeRef → Bool
is_root root = true
is_root dev = false
is_root (file i) = false

-- The entry returned, `none` inside for the null pointer, and the new state.
unfoldable pub initrd_readdir : Initrd → NodeRef → ℕ → Option (Option Dirent × Initrd)
initrd_readdir s node index =
    if is_root node && (index == 0)
    then (do
      name ← strcpy s.dirent.name (codes "dev" ++ 0 ∷ [])
      name ← put name 3 0
      let entry : Dirent = record { name = name; ino = 0 }
      some (some entry, record s { dirent = entry }))
    else if leb s.nroot_nodes ((index + 2 ^ 32 - 1) % 2 ^ 32)
    then some (none, s)
    else (do
      n ← get_elem? s.root_nodes (index - 1)
      name ← strcpy s.dirent.name n.name
      len ← strlen n.name
      name ← put name len 0
      let entry : Dirent = record { name = name; ino = n.inode }
      some (some entry, record s { dirent = entry }))

-- How often a loop from 0 up to nroot_nodes runs, which is a signed number.
abbrev pub rounds_of : ℕ → ℕ
rounds_of n = if ltb n (2 ^ 31) then n else 0

-- The loop of `initrd_finddir` and the first loop of `initrd_close`, with the rounds left: the
-- index of the first node with the name.
unfoldable pub find_name : ℕ → ℕ → List FsNode → List ℕ → Option (Option ℕ)
find_name zero i nodes name = some none
find_name (suc rounds) i nodes name =
    let rest = find_name rounds (i + 1) nodes name in
    do
      n ← get_elem? nodes i
      r ← strcmp name n.name
      elim r [ equal ↦ some (some i) | differ a b ↦ rest ]

unfoldable pub initrd_finddir : Initrd → NodeRef → List ℕ → Option (Option NodeRef)
initrd_finddir s node name =
    let loop : Option (Option NodeRef) = (do
      found ← find_name (rounds_of s.nroot_nodes) 0 s.root_nodes name
      some (elim found [ none ↦ none | some i ↦ some (file i) ])) in
    elim (is_root node) [
      | true ↦ (do
        r ← strcmp name (codes "dev" ++ 0 ∷ [])
        elim r [ equal ↦ some (some dev) | differ a b ↦ loop ])
      | false ↦ loop
    ]

-- The node that a file gets, on top of what its memory held.
abbrev pub file_node : List ℕ → ℕ → ℕ → FsNode
file_node name inode length = record {
  name = name;
  mask = 0;
  uid = 0;
  gid = 0;
  flags = fs_file;
  inode = inode;
  length = length;
  impl = 0;
  read = true;
  write = false;
  open_method = false;
  close = false;
  readdir = false;
  finddir = false;
}

-- `initrd_open`. The copy t_root of the nodes is never used: the new node is written behind the end of
-- `root_nodes` unless there is room.
unfoldable pub initrd_open : Initrd → List ℕ → Option (NodeRef × Initrd)
initrd_open s name = do
  let nfiles = (s.nfiles + 1) % 2 ^ 32
  let i = (nfiles + 2 ^ 32 - 1) % 2 ^ 32
  n ← get_elem? s.root_nodes i
  new_name ← strcpy n.name name
  some (
    file i,
    record s {
      nfiles = nfiles;
      nroot_nodes = nfiles;
      root_nodes = set s.root_nodes i (file_node new_name i 0);
    },
  )

-- `for (; i + 1 < nroot_nodes; i++) root_nodes[i] = root_nodes[i + 1]`, with the rounds left.
unfoldable pub shift_down : ℕ → ℕ → List FsNode → Option (List FsNode)
shift_down zero i nodes = some nodes
shift_down (suc rounds) i nodes = do
  n ← get_elem? nodes (i + 1)
  shift_down rounds (i + 1) (set nodes i n)

-- `initrd_close`: where no node has the name, the loops end with i = nroot_nodes, or with 0.
unfoldable pub initrd_close : Initrd → List ℕ → Option Initrd
initrd_close s name = do
  found ← find_name (rounds_of s.nroot_nodes) 0 s.root_nodes name
  let i : ℕ = elim found [ none ↦ rounds_of s.nroot_nodes | some i ↦ i ]
  nodes ← shift_down (rounds_of s.nroot_nodes - (i + 1)) i s.root_nodes
  let nfiles = (s.nfiles + 2 ^ 32 - 1) % 2 ^ 32
  some (record s { root_nodes = nodes; nfiles = nfiles; nroot_nodes = nfiles })

-- The directory nodes made by `initialise_initrd`.
abbrev pub directory_node : List ℕ → FsNode
directory_node name = record {
  name = name;
  mask = 0;
  uid = 0;
  gid = 0;
  flags = fs_directory;
  inode = 0;
  length = 0;
  impl = 0;
  read = false;
  write = false;
  open_method = true;
  close = true;
  readdir = true;
  finddir = true;
}

-- The loop of `initialise_initrd`, over the file headers and the name fields of the nodes that were
-- allocated, as they are.
unfoldable pub init_nodes :
    ℕ → ℕ → List FileHeader → List (List ℕ) → Option (List FileHeader × List FsNode)
init_nodes loc i [] names = some ([], [])
init_nodes loc i (h ∷ hs) [] = none
init_nodes loc i (h ∷ hs) (raw ∷ names) = do
  name ← strcpy raw h.name
  (hs', nodes) ← init_nodes loc (i + 1) hs names
  some (record h { offset = (h.offset + loc) % 2 ^ 32 } ∷ hs', file_node name i h.length ∷ nodes)

-- `file_headers[i]` at its address: magic, the 64 bytes of the name, offset and length.
unfoldable pub file_header_at : (ℕ → ℕ) → ℕ → FileHeader
file_header_at memory a = record {
  magic = load8 memory a;
  name = load_bytes memory (a + 1) 64;
  offset = load32 memory (a + 68);
  length = load32 memory (a + 72);
}

unfoldable pub headers_at : (ℕ → ℕ) → ℕ → ℕ → List FileHeader
headers_at memory a zero = []
headers_at memory a (suc n) = file_header_at memory a ∷ headers_at memory (a + 76) n

-- The headers that the loop of `initialise_initrd` goes over, for a ramdisk at `loc`. They are read
-- before the first offset is written: no header overlaps the offset of another.
abbrev pub headers_in : (ℕ → ℕ) → ℕ → List FileHeader
headers_in memory loc = headers_at memory (loc + 4) (rounds_of (load32 memory loc))

-- The writes to the offsets.
unfoldable pub write_offsets : ℕ → List FileHeader → (ℕ → ℕ) → ℕ → ℕ
write_offsets a [] memory = memory
write_offsets a (h ∷ hs) memory = write_offsets (a + 76) hs (store32 memory (a + 68) h.offset)

-- `initialise_initrd`. `raw` are the 128 bytes of each name field as `_malloc_s` returned them: those of
-- the root, of dev and of the file nodes.
unfoldable pub initialise_initrd :
    ℕ → (ℕ → ℕ) → List ℕ → List ℕ → List (List ℕ) → Dirent → Option (NodeRef × Initrd)
initialise_initrd loc memory raw_root raw_dev raw dirent = do
  root_name ← strcpy raw_root (codes "initrd" ++ 0 ∷ [])
  dev_name ← strcpy raw_dev (codes "dev" ++ 0 ∷ [])
  (hs, nodes) ← init_nodes loc 0 (headers_in memory loc) raw
  some (
    root,
    record {
      nfiles = load32 memory loc;
      file_headers = hs;
      initrd_root = directory_node root_name;
      initrd_dev = directory_node dev_name;
      root_nodes = nodes;
      nroot_nodes = load32 memory loc;
      dirent = dirent;
      memory = write_offsets (loc + 4) hs memory;
    },
  )
