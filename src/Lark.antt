-- ===== src/Lark.antt =====
-- internal/lark/client.go: the errors that the outbound queue looks at, the texts of messages, and the
-- events that bring them.
pub mod Errors
pub mod Mention
pub mod Text
pub mod RoundTrip
pub mod Event
pub mod Token
pub mod Authorized
mod Tests
