-- ===== src/Std.antt =====
-- What the source uses of Rust's standard library: text formatting, UTF-8 validation, C strings
-- and paths.
pub mod Format
pub mod Utf8
pub mod CString
pub mod Escape
pub mod FilePath
pub mod Masks
