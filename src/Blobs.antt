-- ===== src/Blobs.antt =====
-- app/blobs: spools, validation, stores and collection of image blobs.
mod Tests
pub mod Spool
pub mod Filenames
pub mod Uploads
pub mod S3
pub mod Local
pub mod Store
pub mod Validate
pub mod Gc
