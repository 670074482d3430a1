-- ===== src/Core.antt =====
-- The pure domain model: crates/nisaba-core.
pub mod Position
pub mod Range
pub mod Mark
pub mod MarkSet
pub mod Flags
pub mod Delimiters
pub mod RedlineStyle
pub mod Redline
pub mod Projection
pub mod Resolution
pub mod Deleted
pub mod Validation
pub mod DocumentPath
pub mod Review
pub mod Document
pub mod Project
pub mod Milestone
mod Examples
mod Samples
