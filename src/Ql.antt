-- ===== src/Ql.antt =====
-- The query language behind its parser (include/ql, src/ql): syntax trees, the evaluation of
-- expressions, the index range that a filter allows, and the statements.
pub mod Ast
pub mod Arith
pub mod Eval
pub mod Range
pub mod Exec
mod Tests
