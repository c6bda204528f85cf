-- ===== src/Fs/Node.antt =====
-- The structures of src/fs.h and src/initrd.h.
use os_implement.Prelude.{ℕ, Bool, List}

abbrev pub fs_file : ℕ
fs_file = 0x01

abbrev pub fs_directory : ℕ
fs_directory = 0x02

-- `fs_node_t`. There is one implementation of each method, that of the ramdisk, so that a function
-- pointer is a truth value: is it set? `ptr` is for mount points, which there are none of.
pub record FsNode : Type 0 where
  pub name : List ℕ
  pub mask : ℕ
  pub uid : ℕ
  pub gid : ℕ
  pub flags : ℕ
  pub inode : ℕ
  pub length : ℕ
  pub impl : ℕ
  pub read : Bool
  pub write : Bool
  pub open_method : Bool
  pub close : Bool
  pub readdir : Bool
  pub finddir : Bool

-- `dirent_t`
pub record Dirent : Type 0 where
  pub name : List ℕ
  pub ino : ℕ

-- `initrd_file_header_t`
pub record FileHeader : Type 0 where
  pub magic : ℕ
  pub name : List ℕ
  pub offset : ℕ
  pub length : ℕ

-- A pointer to a node: initrd_root, initrd_dev or &root_nodes[i].
pub data NodeRef : Type 0 where
  root : NodeRef
  dev : NodeRef
  file : ℕ → NodeRef

-- The global variables of initrd.c, and the bytes of memory. `root_nodes` has as many elements as
-- were allocated for it; `dirent` is the one entry that `initrd_readdir` returns each time.
pub record Initrd : Type 0 where
  pub nfiles : ℕ
  pub file_headers : List FileHeader
  pub initrd_root : FsNode
  pub initrd_dev : FsNode
  pub root_nodes : List FsNode
  pub nroot_nodes : ℕ
  pub dirent : Dirent
  pub memory : ℕ → ℕ
