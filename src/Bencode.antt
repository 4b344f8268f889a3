-- ===== src/Bencode.antt =====
-- src/bencoding: element references, their parser, and the grammar that the parser is held to.
pub mod Errors
pub mod Elements
pub mod Length
pub mod Cursor
pub mod Parser
pub mod Grammar
mod Tests
pub mod Sound
pub mod Complete
pub mod Entry
pub mod Overrun
pub mod Refused
