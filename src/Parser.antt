-- ===== src/Parser.antt =====
-- src/config.c: the parser of configurations. A result of 0 is `some` or `true`, a result of -1 is
-- `none` or `false`; a configuration that is changed before the error stays changed.
pub mod Index
pub mod Function
pub mod Actions
pub mod Expression
pub mod Store
pub mod Descriptor
pub mod Layers
pub mod Entry
pub mod Sections
pub mod Passes
pub mod Init
pub mod File
pub mod Sound
