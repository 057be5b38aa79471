-- ===== src/Session.antt =====
-- internal/session/session.go: the sessions of a client and of a remote host, one for each connection.
pub mod Types
pub mod Duration
pub mod Base
pub mod Register
pub mod Local
pub mod Accept
pub mod Remote
pub mod Tick
pub mod Same
pub mod Limit
pub mod Stream
pub mod Peer
mod Tests
