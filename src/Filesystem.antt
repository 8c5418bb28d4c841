-- ===== src/Filesystem.antt =====
-- src/filesystem and include/libd/filesystem.h.
pub mod PlatformWrap
pub mod Tokens
pub mod Filepath
pub mod Allocator
