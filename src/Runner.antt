-- ===== src/Runner.antt =====
-- The runners: src/exec/runner_utils.c and the two that use it.
pub mod Group
pub mod Grouped
pub mod Nested
pub mod Partition
pub mod Trace
pub mod Run
mod Examples
