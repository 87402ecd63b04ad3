-- ===== src/Bopomofo.antt =====
-- frontend/src/core/bopomofo.hpp: the keyboard, the character table and the entries of a composition.
pub mod Layout
pub mod Hanzi
pub mod Entry
pub mod Keyboard
pub mod Validity
pub mod Identity
pub mod Symbols
pub mod Typing
pub mod Choosing
