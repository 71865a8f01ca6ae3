-- ===== src/Engine/Debug.antt =====
-- pkg/engine/debug.go: the debugger, which pauses a run at breakpoints and takes commands.
pub mod Points
pub mod Places
pub mod Core
pub mod Asking
pub mod Control
pub mod Pausing
pub mod System
