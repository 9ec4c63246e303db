-- ===== src/Utils.antt =====
-- utils.c: the helpers on paths and strings.
pub mod DotDot
pub mod Concat
mod Tests
