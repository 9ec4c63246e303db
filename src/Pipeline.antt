-- ===== src/Pipeline.antt =====
-- pipeline.c: the stages that a value passes through in a template.
pub mod UrlEscape
pub mod Stages
pub mod Escaped
mod Tests
