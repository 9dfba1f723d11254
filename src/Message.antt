-- ===== src/Message.antt =====
-- smb2: the header of a message, the requests of a chain and the responses to them.
pub mod Words
pub mod Header
pub mod Fields
pub mod Request
pub mod Response
mod Tests
pub mod LeaseContext
pub mod LeaseBreak
