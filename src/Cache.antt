-- ===== src/Cache.antt =====
-- cache/: the local cache, the service that serves it and the client that forwards to it.
pub mod Local
pub mod Service
pub mod Remote
mod Tests
