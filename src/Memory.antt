-- ===== src/Memory.antt =====
-- The memory part, zysoft/zysoft/memory/.
pub mod Bytes
pub mod Allocators
pub mod FlatBuffer
pub mod AutoBuffer
mod Tests
