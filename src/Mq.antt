-- ===== src/Mq.antt =====
-- pkg/mq/mq.go: the bus over Redis streams and the bus over a channel.
pub mod Streams
pub mod Bus
pub mod Channel
pub mod Conserve
pub mod Drain
pub mod Ack
pub mod Settle
