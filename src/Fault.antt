-- ===== src/Fault.antt =====
-- Fault tolerance (src/fault_tolerance): the backup items that travel between an operator, its
-- worker and the backup server.
pub mod Item
pub mod Content
pub mod RecoveryItem
pub mod Server
pub mod Client
pub mod Tracker
pub mod AdapterRecovery
