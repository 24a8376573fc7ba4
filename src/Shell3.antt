-- ===== src/Shell3.antt =====
-- The shell of SP_HW3: the state between its calls is Machine's, its arrays are those of the later shell.
pub mod Parse
pub mod Run
pub mod Builtin
pub mod Main
pub mod Tests
