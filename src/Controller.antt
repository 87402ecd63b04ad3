-- ===== src/Controller.antt =====
-- class CompositionController (frontend/src/core/composition_controller.hpp and
-- composition_controller.cpp): the composition state machine.
pub mod State
pub mod Actions
pub mod Results
pub mod Steps
pub mod Ending
pub mod Ordered
pub mod OrderedKeys
pub mod OrderedEdits
pub mod OrderedSteps
pub mod Parts
pub mod OrderedParts
pub mod Interleaving
