-- ===== src/Handler.antt =====
-- internal/handler: the HTTP handlers and the middlewares.
pub mod Http
pub mod Metrics
pub mod Pages
pub mod Gzip
pub mod Compress
pub mod Hash
pub mod Limits
