-- ===== src/Conversations.antt =====
-- Conversations (src/modules/conversations): the documents, the driver, the service, and its laws.
pub mod Document
pub mod Service
mod Members
mod Pins
mod Pinned
mod Creation
pub mod Memory
mod Tests
