-- ===== src/Platform.antt =====
-- src/platform and include/libd/platform.
pub mod Paths
pub mod ThreadLocal
