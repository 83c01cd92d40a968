-- ===== src/Execution.antt =====
-- src/execution: the interpreter's own data structures.
pub mod Task
pub mod Channel
pub mod Requests
pub mod Heap
pub mod ArrayCopy
