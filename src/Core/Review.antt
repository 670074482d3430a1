-- ===== src/Core/Review.antt =====
-- crates/nisaba-core/src/review.rs: bulk resolution, comment threads, and the diff of texts.
pub mod Bulk
pub mod Threads
pub mod Diff
pub mod Tiers
