-- ===== src/Analysis.antt =====
-- src/analysis: graphs and the walks over them, the control flow of a function and dominance.
pub mod Graph
pub mod Walker
pub mod Components
pub mod ControlFlow
pub mod Dominance
