-- ===== src/Helpers.antt =====
-- The helpers of src/common/utils/helpers.ts that compute without the platform.
mod Arrays
mod Numbers
mod Retry
mod Pages
mod Groups
mod Attempts
mod Hashes
mod Tests
