-- ===== src/Models.antt =====
-- Local model files and the processes that serve them (internal/models).
pub mod Gguf
pub mod Scanner
pub mod Launcher
pub mod Lifecycle
mod Tests
