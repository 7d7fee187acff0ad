-- ===== src/Messages.antt =====
-- The messages of conversations: frontend/src/hooks/useConversationMessages.ts with
-- frontend/src/utils/messageIdentity.ts.
pub mod Key
pub mod Cache
pub mod Reconcile
pub mod PendingAck
pub mod Append
pub mod Chat
pub mod Switch
