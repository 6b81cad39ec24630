-- ===== src/Metadata.antt =====
-- The readers of src/metadata.
pub mod IsoBmff
pub mod Signature
pub mod Tiff
mod Tests
