-- ===== src/Keys.antt =====
-- frontend/src/tsf/key_router.hpp and key_router.cpp: the decision for each key, and the key state.
pub mod Presses
pub mod Router
pub mod State
pub mod Routing
pub mod ShiftTap
