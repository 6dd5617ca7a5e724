-- ===== src/Simt.antt =====
-- The SIMT executor: src/simt/control_flow_analysis.cpp and src/simt/simt.cpp.
pub mod Cfa
pub mod Stack
pub mod Step
pub mod Launch
pub mod Run
