-- ===== src/Slave.antt =====
-- src/slave.rs: the server. Model has the interface of a device model with its default methods;
-- Reply how a handler answers; Reads, Writes, Ids the handlers; Dispatch the whole of a frame.
pub mod Model
pub mod Reply
pub mod Reads
pub mod Writes
pub mod Ids
pub mod AddressLock
pub mod Queues
pub mod Lifecycle
pub mod Dispatch
