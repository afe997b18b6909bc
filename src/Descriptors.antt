-- ===== src/Descriptors.antt =====
-- TLPI/chapter5/exercise: exercises on descriptors.
pub mod Dup
