-- ===== src/Handlers.antt =====
-- The stores of event handlers (store.go), and the handlers of acknowledgements (handler.go).
pub mod Slices
pub mod Store
pub mod Events
pub mod Ack
