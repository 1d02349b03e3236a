-- ===== src/Policies.antt =====
-- internal/policies: role statements, subject bindings, and AWS-style bucket policies.
mod Tests
pub mod Patterns
pub mod Evaluation
pub mod Tables
pub mod Statements
pub mod Bindings
pub mod Authorize
pub mod Explain
