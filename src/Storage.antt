-- ===== src/Storage.antt =====
-- internal/repository: the storages behind the interface of internal/service/storage.go.
pub mod Interface
pub mod Mem
pub mod Db
