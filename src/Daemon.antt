-- ===== src/Daemon.antt =====
-- internal/daemon: the daemon that runs the commands of a chat.
pub mod Remote
pub mod Create
pub mod Events
mod Tests
