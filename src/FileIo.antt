-- ===== src/FileIo.antt =====
-- TLPI/chapter4 and chapter5: file I/O.
pub mod Copy
pub mod CpHole
pub mod CreatHole
pub mod Tee
pub mod Append
pub mod LargeFile
pub mod Gather
pub mod Overwrite
pub mod Readv
