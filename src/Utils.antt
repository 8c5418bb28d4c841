-- ===== src/Utils.antt =====
-- include/libd/utils.
pub mod Encodings
pub mod DArray
