-- ===== src/Shell.antt =====
-- The shells of SP_HW/SP_HW5/part2 and SP_HW/SP_HW3: a line is split into words, and runs a command
-- that is built in or a pipeline of programs.
pub mod Parse
pub mod Input
pub mod Builtin
pub mod Redirect
pub mod Pipe
pub mod Run
pub mod Early
