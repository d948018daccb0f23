-- ===== src/Queues.antt =====
-- The queues between those who send packets and the one who polls for them (packet_queue.go, and
-- engine.io/transport/polling/poll_queue.go), with their channels and the interleavings of both sides.
pub mod PacketQueue
pub mod PollQueue
