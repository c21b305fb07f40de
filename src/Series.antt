-- ===== src/Series.antt =====
-- Series and their metadata (api/src/tabayyun/services/series.py, services/source_metadata.py).
pub mod Tables
pub mod Limits
pub mod Bands
pub mod Values
pub mod Uploads
pub mod Patch
pub mod Import
pub mod Apply
pub mod Describe
pub mod Filled
pub mod Imported
pub mod Reach
