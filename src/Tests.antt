-- ===== src/Tests.antt =====
-- The theorems at concrete inputs, by part.
mod Api
mod Control
mod Memories
mod Queues
mod Registers
mod Shim
mod Runs
mod Texts
