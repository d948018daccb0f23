-- ===== src/Adapter.antt =====
-- The adapters (adapter/): which socket is in which room, whom a broadcast reaches, what a
-- client has missed that comes back, and how an emission is put together.
pub mod Sets
pub mod Memory
pub mod SessionAware
pub mod Operator
