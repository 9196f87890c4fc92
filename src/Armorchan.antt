-- ===== src/Armorchan.antt =====
-- Package armorchan: frames on a byte stream, and the channel of sealed records on top of them.
pub mod Frame
pub mod Channel
pub mod Handshake
mod Tests
