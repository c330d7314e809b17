-- ===== src/Arp.antt =====
-- frontend/src/lib/arpProtocol.ts and arpSession.ts: a reliable stream over a channel that loses,
-- repeats and reorders frames.
pub mod Frame
pub mod SenderState
pub mod Sender
pub mod Receiver
pub mod Session
pub mod Stream
mod Tests
