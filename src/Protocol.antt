-- ===== src/Protocol.antt =====
-- internal/protocol/frame.go: frames and payloads, their wire format, the sender's sequence numbers and the
-- receiver's window.
pub mod Frame
pub mod Window
pub mod Sequencer
pub mod Base64
pub mod Decimal
pub mod Wire
mod Tests
