-- ===== src/Polls.antt =====
-- Polls in group conversations (src/modules/polls/polls.service.ts, schemas/poll.schema.ts).
pub mod Poll
pub mod Service
pub mod Tally
pub mod Votes
pub mod Closing
pub mod Creation
pub mod Lost
mod Tests
