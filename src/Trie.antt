-- ===== src/Trie.antt =====
-- The search tree of src/common/search/trie.service.ts: the tree, its operations, and their laws.
mod Node
mod Words
mod Prefix
mod Lookup
mod Changes
mod Ranking
mod Proper
mod Collected
mod Results
mod Fuzzy
mod Distance
mod Tests
