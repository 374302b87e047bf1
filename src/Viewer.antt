-- ===== src/Viewer.antt =====
-- The live viewer (plugins/tribe/scripts/viewer/core): the machine that follows a growing transcript.
pub mod Tail
pub mod Window
mod Examples
