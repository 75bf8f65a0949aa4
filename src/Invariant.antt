-- ===== src/Invariant.antt =====
-- The invariant of the compositor's windows and focus, and lemmas on it for the operations.
pub mod Defs
pub mod Focus
pub mod Workspace
pub mod Layout
pub mod Lifecycle
pub mod Map
pub mod Move
pub mod Commands
pub mod Bindings
pub mod Maximize
pub mod Requests
pub mod Pointer
pub mod Touch
pub mod Outputs
pub mod Reach
pub mod System
pub mod Ipc
pub mod Current
