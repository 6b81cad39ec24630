-- ===== src/Thumbnail.antt =====
-- The thumbnails: the disk cache and the service of src/thumbnail, with the request that the service
-- takes, of src/core/src/media_request.cpp.
pub mod DiskCache
pub mod Request
pub mod Service
mod Tests
