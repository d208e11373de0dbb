-- ===== src/Text.antt =====
-- src/strutil.c: strings as lists of bytes, without the NUL that ends them. A result that is
-- written over the argument is a new list.
pub mod CString
pub mod Utf8
pub mod Escape
pub mod Timeval
