-- ===== src/Huddles.antt =====
-- Huddles (src/modules/huddle): the repository, the factory and the services over it.
mod Document
mod Repository
mod Service
mod Members
mod Sound
mod Coming
mod Going
mod Forced
mod Runs
mod Stuck
mod Tests
