-- ===== src/Storage.antt =====
-- packages/storage/src: the keys of objects and the client of the object storage.
pub mod Keys
pub mod Client
pub mod Paths
pub mod Guarded
