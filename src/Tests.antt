-- ===== src/Tests.antt =====
-- Runs of the definitions at concrete inputs.
mod Ranges
mod Trees
mod Sets
mod Archives
mod Frames
mod Mutators
mod Sections
mod Splits
mod Slots
mod Walks
mod Dominators
mod Aliases
mod Components
