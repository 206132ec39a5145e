-- ===== src/Column.antt =====
-- column/: tensors, the kernels that compute on them, tables, and the expression DSL.
pub mod Numbers
pub mod Tensor
pub mod Compute
pub mod Index
pub mod Table
pub mod Store
pub mod Feed
pub mod Pipeline
pub mod Op
pub mod Expr
pub mod Quantize
pub mod Ops
pub mod Graph
pub mod Run
mod Sample
mod Tests
mod ExprTests
mod GraphTests
