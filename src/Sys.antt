-- ===== src/Sys.antt =====
-- What the program calls and does not implement: the bindings that the build generates for
-- `libps2hdd`, that library itself, `strerror`, and the host's file system.
pub mod Bindings
pub mod Platform
pub mod World
pub mod Dirent
