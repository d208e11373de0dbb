-- ===== src/Keyboard.antt =====
-- src/keyboard.c and src/keyboard.h.
pub mod State
pub mod Cache
pub mod Send
pub mod Layers
pub mod Lookup
pub mod Timeouts
pub mod Chords
pub mod Actions
pub mod Swap
pub mod Descriptors
pub mod Events
pub mod Create
pub mod Invariant
pub mod Safety
pub mod Fuel
