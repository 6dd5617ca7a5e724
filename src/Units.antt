-- ===== src/Units.antt =====
-- The execution units of an SM: src/units/exec_core.cpp, control_unit.cpp and mem_unit.cpp.
pub mod Exec
pub mod Control
pub mod Mem
