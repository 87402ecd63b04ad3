-- ===== src/Sealed.antt =====
-- frontend/src/core/sealed_text.hpp and sealed_text.cpp: the text that a composition left in its
-- document before its conversion was done.
pub mod Units
pub mod Characters
pub mod Segment
pub mod Erasing
pub mod Queue
pub mod Writing
pub mod Progress
pub mod Epochs
pub mod QueueEpochs
