-- ===== src/Coderun.antt =====
-- internal/coderun.
pub mod Watcher
pub mod RunScript
pub mod Script
pub mod Docker
pub mod Containers
