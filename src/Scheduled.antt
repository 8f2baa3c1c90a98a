-- ===== src/Scheduled.antt =====
-- Scheduled messages (src/modules/scheduled-messages): the document, the service and its laws.
mod Service
mod Once
mod Due
mod Tests
