-- ===== src/Kp.antt =====
-- The messenger, KP/: one server, and clients that talk to it through named pipes. A text is the
-- list of its bytes.
pub mod Constants
pub mod StringParser
pub mod Server
pub mod Client
pub mod Tui
pub mod Messenger
