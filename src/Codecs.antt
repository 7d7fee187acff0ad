-- ===== src/Codecs.antt =====
-- What the client reads out of the text of a message and writes into it.
pub mod Sender
pub mod Reaction
pub mod Replacement
