-- ===== src/Master.antt =====
-- src/master.rs: the client.
pub mod Requests
pub mod Wait
pub mod Transactions
pub mod Exchange
pub mod Total
