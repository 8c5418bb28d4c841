-- ===== src/Testing.antt =====
-- include/libd/testing.h: the registry of tests, the predicates and the assertions.
pub mod Registry
pub mod Predicates
pub mod Assertions
