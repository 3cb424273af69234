-- ===== src/Workload.antt =====
-- The workloads of common/workload: a file cut into fixed messages, and put together again.
pub mod File
pub mod Recovery
mod Examples
