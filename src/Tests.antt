-- ===== src/Tests.antt =====
-- The theorems applied at concrete inputs.
mod Messages
mod Chat
mod Network
mod Packets
mod Unread
mod Links
mod Paths
mod Socket
mod Codecs
mod Replacement
mod Switch
