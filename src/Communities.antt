-- ===== src/Communities.antt =====
-- Communities (src/modules/communities): the document, the service and its laws.
mod Service
mod Admins
mod Tests
