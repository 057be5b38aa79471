-- ===== src/Ipc.antt =====
-- internal/ipc/ipc.go: the messages between the command elark and the daemon elarkd.
pub mod Types
pub mod Validate
pub mod Request
pub mod Wire
pub mod Answer
mod Tests
