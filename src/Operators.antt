-- ===== src/Operators.antt =====
-- The fault-tolerant operators (src/operator).
pub mod Interface
pub mod MaxArray
pub mod SumArray
pub mod Norms
pub mod Hash
