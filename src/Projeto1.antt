-- ===== src/Projeto1.antt =====
-- Projeto1SO/tecnicofs: the earlier file system, whose files have several blocks (fs/state.c,
-- fs/operations.c). The constants of fs/config.h, the flags of `tfs_open` and the layout of a
-- directory entry are those of Projeto2.Types.
pub mod Types
pub mod Blocks
pub mod Inodes
pub mod Directory
pub mod Handles
pub mod Position
pub mod Operations
pub mod Reading
pub mod Invariant
pub mod Tests
