-- ===== src/Transfer.antt =====
-- Content transfer (libcore/src/transfer): ranges of files and the caches for them.
mod Tests
pub mod Range
pub mod Sparse
pub mod Policy
pub mod LruPolicy
pub mod CacheMap
pub mod MemoryCache
pub mod Uri
pub mod FileId
pub mod Manager
pub mod Services
pub mod Names
pub mod NetworkCache
