-- ===== src/Telegram.antt =====
-- telegram/: the client with its settings and reconnect loop, the resolver of the channel and the listener.
pub mod Client
pub mod Connection
pub mod Auth
pub mod Channel
pub mod Listener
pub mod Substring
pub mod Readings
pub mod Intakes
pub mod Known
