-- ===== src/Conversions.antt =====
-- frontend/src/core/conversion.hpp and candidate_lock.hpp: the requests that wait for an answer, and
-- the result that waits for the candidate list to close.
pub mod Tracker
pub mod Answers
pub mod Lock
