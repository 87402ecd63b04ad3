-- ===== src/LoraHistory.antt =====
-- The base models of the training history (service/src/settings/lora_history_base.hpp).
pub mod Bases
pub mod Listing
