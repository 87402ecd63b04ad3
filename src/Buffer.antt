-- ===== src/Buffer.antt =====
-- class CompositionBuffer (frontend/src/core/buffer.hpp).
pub mod State
pub mod Text
pub mod Edits
pub mod Merge
pub mod Ids
pub mod Concat
pub mod Validity
pub mod Selecting
pub mod SelectingValidity
pub mod Freezing
pub mod FreezingText
pub mod Merging
pub mod MergingValidity
pub mod Showing
pub mod Revisions
