-- ===== src/Util.antt =====
-- Utilities (libcore/src/util): the hash values that name files, and lists of listeners.
mod Tests
pub mod Sha256
pub mod ListenerProvider
