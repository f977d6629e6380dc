-- ===== src/Projeto2.antt =====
-- Projeto2/tecnicofs_ex2: the file system (fs/state.c, fs/operations.c), and what the modules
-- below prove of it.
pub mod Types
pub mod Blocks
pub mod Directory
pub mod Inodes
pub mod Handles
pub mod Operations
pub mod Api
pub mod Invariant
pub mod Server
pub mod Client
mod Tests
