-- ===== src/Pty.antt =====
-- internal/pty/pty.go: commands under a terminal. What pty.go has in the same words as
-- internal/remoteexec/exec.go is taken from RemoteExec.
pub mod Size
pub mod Signals
pub mod Start
pub mod Terminal
mod Tests
