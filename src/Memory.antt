-- ===== src/Memory.antt =====
-- src/memory and include/libd/memory.h: the alignment helpers and the two allocators.
pub mod Helpers
pub mod Linear
pub mod Pool
