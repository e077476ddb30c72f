-- ===== src/Tests.antt =====
-- Concrete runs of the code, and the theorems at inputs that meet their hypotheses.
pub mod Libc
pub mod Arrays
pub mod Queues
pub mod Messages
pub mod Connections
pub mod Systems
pub mod Dictionaries
pub mod Files
pub mod Lifetimes
pub mod Lists
pub mod Program
