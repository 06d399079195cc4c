-- ===== src/BlobDb.antt =====
-- What the layers above rely on from blob_db (include/app/lib/blob_db.h), and a store that keeps it.
mod Contract
mod Reference
pub use Contract.*
unfoldable pub use Reference.*
