-- ===== src/Bus.antt =====
-- pkg/bus: the worker groups of the scheduler, and the bus in memory.
pub mod Workers
pub mod Memory
