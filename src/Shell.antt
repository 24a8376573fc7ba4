-- ===== src/Shell.antt =====
-- The shell of SP_HW5/Part2, file by file.
pub mod Cut
pub mod Parse
pub mod Scan
pub mod Pipe
pub mod Redirect
pub mod Run
pub mod Builtin
pub mod Main
pub mod Tests
