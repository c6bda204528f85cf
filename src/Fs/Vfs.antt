-- ===== src/Fs/Vfs.antt =====
-- The calls of src/fs.c, which go through the function pointers of a node.
use os_implement.Prelude.{
  ◌>>=◌, ℕ, ◌+◌, ◌^◌, ◌<◌, ◌≡◌, ap, ◌∙◌, bit_and, Bool, true, false, ◌&&◌, Option, none, some, List,
  [], ◌==◌, if◌then◌else◌, get_elem?, take, drop,
}
use os_implement.Text.{text}
use os_implement.Text.Laws.{nul_terminated}
use os_implement.Fs.Node.{
  FsNode, Dirent, FileHeader, NodeRef, root, dev, file, Initrd, fs_file, fs_directory,
}
use os_implement.Fs.Initrd.{
  initrd_read, initrd_write, initrd_readdir, initrd_finddir, initrd_open, initrd_close,
}
use os_implement.Fs.Read.{contents, initrd_read-slice}
use os_implement.Fs.Listing.{IsDirectory, readdir-finddir}

-- The node behind a pointer.
abbrev pub node_at : Initrd → NodeRef → Option FsNode
node_at s root = some s.initrd_root
node_at s dev = some s.initrd_dev
node_at s (file i) = get_elem? s.root_nodes i

unfoldable pub read_fs : Initrd → NodeRef → ℕ → ℕ → Option (List ℕ)
read_fs s node offset size = do
  n ← node_at s node
  if n.read then initrd_read s n.inode offset size else some []

unfoldable pub write_fs : Initrd → NodeRef → ℕ → ℕ → List ℕ → Option Initrd
write_fs s node offset size buffer = do
  n ← node_at s node
  if n.write then initrd_write s n.inode offset size buffer else some s

-- Without the method nothing is returned.
unfoldable pub open_fs : Initrd → NodeRef → List ℕ → Option (Option NodeRef × Initrd)
open_fs s node name = do
  n ← node_at s node
  if n.open_method
      then initrd_open s name >>= (λ (opened, s'). some (some opened, s'))
      else some (none, s)

unfoldable pub close_fs : Initrd → NodeRef → List ℕ → Option Initrd
close_fs s node name = do n ← node_at s node; if n.close then initrd_close s name else some s

abbrev pub is_directory : FsNode → Bool
is_directory n = bit_and n.flags 0x7 == fs_directory

unfoldable pub readdir_fs : Initrd → NodeRef → ℕ → Option (Option Dirent × Initrd)
readdir_fs s node index = do
  n ← node_at s node
  if is_directory n && n.readdir then initrd_readdir s node index else some (none, s)

unfoldable pub finddir_fs : Initrd → NodeRef → List ℕ → Option (Option NodeRef)
finddir_fs s node name = do
  n ← node_at s node
  if is_directory n && n.finddir then initrd_finddir s node name else some none

-- The nodes are as `initialise_initrd` makes them.
pub record IsMounted (s : Initrd) : Type 0 where
  pub root_flags : s.initrd_root.flags ≡ fs_directory
  pub root_readdir : s.initrd_root.readdir ≡ true
  pub root_finddir : s.initrd_root.finddir ≡ true
  pub file_flags : (i : ℕ) (m : FsNode) → get_elem? s.root_nodes i ≡ some m → m.flags ≡ fs_file
  pub file_inode : (i : ℕ) (m : FsNode) → get_elem? s.root_nodes i ≡ some m → m.inode ≡ i
  pub file_read : (i : ℕ) (m : FsNode) → get_elem? s.root_nodes i ≡ some m → m.read ≡ true
  pub file_write : (i : ℕ) (m : FsNode) → get_elem? s.root_nodes i ≡ some m → m.write ≡ false

root_directory : (s : Initrd) → IsMounted s → is_directory s.initrd_root ≡ true
root_directory s ok = ap (λ n. bit_and n 0x7 == fs_directory) ok.root_flags

readdir_root :
    (s : Initrd) (index : ℕ) → IsMounted s → readdir_fs s root index ≡ initrd_readdir s root index
unfolding readdir_fs
readdir_root s index ok = rw (root_directory s ok, ok.root_readdir)

finddir_root :
    (s : Initrd) (name : List ℕ) → IsMounted s → finddir_fs s root name ≡ initrd_finddir s root name
unfolding finddir_fs
finddir_root s name ok = rw (root_directory s ok, ok.root_finddir)

read_file :
    (s : Initrd) (i offset size : ℕ) (m : FsNode)
    → IsMounted s
    → get_elem? s.root_nodes i ≡ some m
    → read_fs s (file i) offset size ≡ initrd_read s i offset size
unfolding read_fs
read_file s i offset size m ok p =
    rw (p, ok.file_read i m p) (ap (λ n. initrd_read s n offset size) (ok.file_inode i m p))

-- In a mounted ramdisk whose files have names that are all different, not empty, not "dev" and of fewer
-- than 128 characters, with an offset and a size whose sum is below 2^32, from the root to the bytes: listing the root at index i + 1 gives the name of file i, searching
-- the root for that name gives a node, and reading from that node gives the bytes of file i from the
-- offset on, at most `size` of them.
pub read_by_name :
    (s : Initrd) (names : List (List ℕ)) (i offset size : ℕ) (t us : List ℕ) (h : FileHeader)
    → IsDirectory s names
    → IsMounted s
    → get_elem? names i ≡ some t
    → get_elem? s.file_headers i ≡ some h
    → offset + size < 2 ^ 32
    → (entry : Dirent) × (node : NodeRef) × (readdir_fs s root (i + 1)
        ≡ some (some entry, record s { dirent = entry }))
      × (text entry.name ≡ t)
      × (finddir_fs s root (nul_terminated t us) ≡ some (some node))
      × (read_fs s node offset size ≡ some (take size (drop offset (contents s h))))
read_by_name s names i offset size t us h dir ok p q fits =
    let (entry, m, e1, e2, e3, e4, e5) = readdir-finddir s names i t us dir p in
    (
      entry,
      file i,
      readdir_root s (i + 1) ok ∙ e1,
      e2,
      finddir_root s (nul_terminated t us) ok ∙ e5,
      read_file s i offset size m ok e3 ∙ initrd_read-slice s i offset size h q fits,
    )

file_no_directory :
    (s : Initrd) (i : ℕ) (m : FsNode)
    → IsMounted s
    → get_elem? s.root_nodes i ≡ some m
    → is_directory m ≡ false
file_no_directory s i m ok p = ap (λ n. bit_and n 0x7 == fs_directory) (ok.file_flags i m p)

-- A file of the ramdisk is read-only and no directory: writing to it through `write_fs`, listing it
-- and searching it succeed, find nothing and change nothing.
pub file_read_only :
    (s : Initrd) (i offset size index : ℕ) (m : FsNode) (buffer name : List ℕ)
    → IsMounted s
    → get_elem? s.root_nodes i ≡ some m
    → (write_fs s (file i) offset size buffer ≡ some s)
      × (readdir_fs s (file i) index ≡ some (none, s))
      × (finddir_fs s (file i) name ≡ some none)
unfolding write_fs readdir_fs finddir_fs
file_read_only s i offset size index m buffer name ok p = (
  rw (p, ok.file_write i m p),
  rw (p, file_no_directory s i m ok p),
  rw (p, file_no_directory s i m ok p),
)
