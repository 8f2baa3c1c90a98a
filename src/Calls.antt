-- ===== src/Calls.antt =====
-- The history of calls (src/modules/calls/calls.service.ts, schemas/call.schema.ts).
pub mod Document
pub mod Service
pub mod Participants
pub mod Updates
mod Tests
