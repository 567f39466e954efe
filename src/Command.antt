-- ===== src/Command.antt =====
-- cmd/cachegrid/main.go.
pub mod Env
pub mod Modes
