-- ===== src/Indexer.antt =====
-- internal/indexer: the sources of a search, and the links that their results carry.
pub mod Token
pub mod Result
pub mod Multi
pub mod Cache
pub mod Client
pub mod Tests
