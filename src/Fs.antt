-- ===== src/Fs.antt =====
-- fs.c, the file system: an inode file system on ATA drives.
pub mod State
pub mod Inode
pub mod Bitmaps
pub mod Dir
pub mod Blocks
pub mod File
pub mod Format
mod Tests
