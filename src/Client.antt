-- ===== src/Client.antt =====
-- tintin-cli/src/main.rs: the terminal client.
pub mod Wire
pub mod Contact
pub mod Files
pub mod State
pub mod Codecs
pub mod Sending
pub mod Calls
pub mod Receiving
pub mod Groups
pub mod Channels
pub mod Edits
pub mod Uploads
mod Toy
mod Tests
