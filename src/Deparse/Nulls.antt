-- ===== src/Deparse/Nulls.antt =====
-- src/deparse.c: how NULL is kept apart from FALSE when conditions are sent to ClickHouse.
pub mod Tree
pub mod Proved
pub mod Values
pub mod Postgres
pub mod Arithmetic
pub mod NeverNull
pub mod Sql
pub mod Walker
pub mod Emit
mod Tally
mod ArrayForms
pub mod Agree
pub mod ArrayOp
pub mod Subquery
mod Nodes
mod Sent
pub mod Subplans
mod SubplanNodes
pub mod Contexts
pub mod ShippedNodes
mod Leaves
mod Below
mod ArrayAnswers
mod AnyAnswers
mod QueryRows
pub mod Shipped
pub mod Conditions
pub mod Print
