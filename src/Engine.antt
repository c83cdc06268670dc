-- ===== src/Engine.antt =====
-- core/filter_engine.h and core/filter_engine.cc: the pure filter engine, one module for each
-- group of its functions. A text is the list of its bytes; a `(const char *, size_t)` pair is that
-- list too, and a pointer that may be NULL is an option of it.
pub mod Chars
pub mod Cmd
pub mod Escape
pub mod Rules
pub mod Match
pub mod Tokens
pub mod Parse
pub mod Connections
pub mod Command
pub mod Mask
