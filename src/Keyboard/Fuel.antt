-- ===== src/Keyboard/Fuel.antt =====
-- src/keyboard.c: fuel that is enough.
pub mod Layers
pub mod Actions
pub mod Descriptors
