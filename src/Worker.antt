-- ===== src/Worker.antt =====
-- class EngineWorker (frontend/src/engine/engine_worker.hpp and engine_worker.cpp): the queue of jobs for
-- the backend, and what its answers change. The thread, its locks and the transport are not modelled.
pub mod Jobs
pub mod Accounting
