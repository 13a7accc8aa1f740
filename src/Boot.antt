-- ===== src/Boot.antt =====
-- The start and the end of a worker process (src/lib.rs, src/runtime.rs).
pub mod Settings
pub mod SettingsLaws
pub mod Import
pub mod ImportLaws
pub mod Loop
pub mod LoopLaws
pub mod Process
pub mod ProcessLaws
pub mod Run
pub mod RunLaws
