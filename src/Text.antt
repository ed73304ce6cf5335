-- ===== src/Text.antt =====
-- The text functions, zysoft/zysoft/string/ and zysoft/zysoft/utility/. Characters are code points, a
-- text is the list of them.
pub mod Split
pub mod Equality
pub mod Decimal
pub mod LocalTime
pub mod Random
pub mod Case
pub mod Comments
pub mod Files
pub mod CmdArgs
pub mod Strings
mod Tests
