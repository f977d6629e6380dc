-- ===== src/Memory.antt =====
-- The C memory behind both exercises: `static char fs_data[]`, an `int` stored in it, and the
-- functions of string.h that the file system calls on it.
mod Words
mod Bytes
mod Text
unfoldable pub use Words.*
unfoldable pub use Bytes.*
unfoldable pub use Text.*
