-- ===== src/Fs.antt =====
-- project3: the file system of homework.c.
pub mod Block
pub mod Inode
pub mod Dirent
pub mod Host
pub mod Action
pub mod Disk
pub mod Bitmap
pub mod Path
pub mod Attributes
pub mod Namespace
pub mod Data
pub mod Writes
pub mod Tree
mod Tests
