-- ===== src/Dag.antt =====
-- dag/: graphs of nodes and of ops.
pub mod Digraph
pub mod Search
pub mod Kahn
pub mod Graph
pub mod Executor
pub mod OpGraph
pub mod OpExecutor
pub mod OpDsl
mod DslTests
mod Tests
mod OpTests
mod ExecutorTests
