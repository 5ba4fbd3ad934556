-- ===== src/Dict.antt =====
-- The dictionary of SP_HW/SP_HW5/part3, SP_HW/SP_HW11 and SP_HW/SP_HW12: the records of dict.h, and
-- the ways to look a word up.
pub mod Record
pub mod Mapped
pub mod Sequential
pub mod Dialogue
pub mod Asking
