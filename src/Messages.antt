-- ===== src/Messages.antt =====
-- Messages (src/modules/messages): the documents, the service and its laws.
mod Document
mod Service
mod Once
mod Runs
mod Deleted
mod Tests
