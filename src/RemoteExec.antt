-- ===== src/RemoteExec.antt =====
-- internal/remoteexec/exec.go: commands without a terminal, from their start to their exit code.
pub mod Types
pub mod Env
pub mod Start
pub mod Wait
pub mod Process
pub mod Kill
pub mod Outcome
mod Tests
