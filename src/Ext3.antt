-- ===== src/Ext3.antt =====
-- `src/kern/fs/ext3`: reading files of an ext3 file system. A disk is what `ahci::read_sectors`
-- answers: a first sector and a number of sectors to their bytes, or nothing. Buffers come from the
-- kernel heap, which every read takes and returns.
pub mod Disk
pub mod Inodes
pub mod Dirs
pub mod Mounted
