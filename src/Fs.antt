-- ===== src/Fs.antt =====
-- kernel/fs.c and include/fs.h: the flat-table file system. The children hold its parts, the
-- definitions first (Name, Disk, Table, Entry, Content, Copy, Paths), then what is proved of them.
pub mod Name
pub mod Disk
pub mod Table
pub mod Entry
pub mod Content
pub mod Copy
pub mod Paths
pub mod Stored
pub mod Region
pub mod Commits
pub mod Reboot
pub mod Lookup
