-- ===== src/Settings.antt =====
-- The settings of the user as JSON and as a file (service/src/service/user_settings_codec.cpp,
-- service/src/service/user_settings.cpp).
pub mod Codec
pub mod Store
pub mod RoundTrip
pub mod Saving
