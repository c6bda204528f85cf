-- ===== src/Fs.antt =====
-- The file system: the nodes of src/fs.h, the ramdisk of src/initrd.c, and the calls of src/fs.c that
-- go through the function pointers of a node.
pub mod Node
pub mod Initrd
pub mod Read
pub mod Dir
pub mod Close
pub mod Listing
pub mod Vfs
pub mod Mount
pub mod Headers
pub mod Tests
