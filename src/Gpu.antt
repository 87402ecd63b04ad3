-- ===== src/Gpu.antt =====
-- GPU clock boosts and the inference sessions that ask for them
-- (service/src/service/gpu_activity_lease.hpp, service/src/service/prediction_pipe_server.hpp).
pub mod Lease
pub mod Timers
pub mod Invariant
pub mod Ending
pub mod Sessions
pub mod Serving
