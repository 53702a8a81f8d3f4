-- ===== src/Dwarf.antt =====
-- src/dwarf: the parser of the .eh_frame section (DwarfParser), the cursor that it reads with
-- (DwarfCursor), and the states of the unwinder (DwarfState) that the call frame instructions build.
pub mod Cursor
pub mod State
pub mod Expressions
pub mod Instructions
pub mod Parser
