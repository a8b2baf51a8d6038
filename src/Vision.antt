-- ===== src/Vision.antt =====
-- The recognition pipeline, app/recognition, and the thumbnails of app/core/imaging.py.
pub mod Types
pub mod Pipeline
pub mod Thumbnail
pub mod Centers
pub mod Nms
pub mod Suppression
pub mod Detect
pub mod Detection
pub mod Embedder
pub mod Aligner
pub mod Build
pub mod Batch
pub mod Sample
mod Tests
