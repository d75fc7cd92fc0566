-- ===== src/Tests.antt =====
-- Runs of the routines on small states.
pub mod Copies
pub mod Operations
pub mod OneWay
pub mod Faults
pub mod Pmem
pub mod PmemMap
pub mod Bits
pub mod Driver
pub mod Study
pub mod Analysis
pub mod Files
pub mod Cpu
pub mod Names
pub mod FileSystem
pub mod Main
pub mod Sweep
