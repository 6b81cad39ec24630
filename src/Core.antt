-- ===== src/Core.antt =====
-- The domain types of src/core: error codes and job records.
pub mod Error
pub mod Job
pub mod Names
