-- ===== src/Engine/Rules.antt =====
-- `CommandBits`, `FilterEntry` and `FilterRules` of core/filter_engine.h, and `ci_eq`,
-- `ci_eq_qualified`, `find_entry` and `add_entry` of core/filter_engine.cc. A mask is an unsigned
-- number of 32 bits; masks are only joined and tested, so they never leave that range.
mod Names
mod Entries
unfoldable pub use Names.*
unfoldable pub use Entries.*
