-- ===== src/Updates.antt =====
-- The check for updates (service/src/settings/update_checker.cpp and update_checker.hpp), and the
-- notification of a major one (service/src/service/major_update_notifier.cpp).
pub mod Version
pub mod Numbers
pub mod Manifest
pub mod Checking
pub mod Releases
pub mod Offers
pub mod Notifying
