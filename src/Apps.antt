-- ===== src/Apps.antt =====
-- src/bin: the applications.
pub mod Changes
pub mod Streaming
pub mod DualIir
pub mod Lockin
