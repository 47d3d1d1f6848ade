-- ===== src/Dirs.antt =====
-- src-tauri/src/dirs.rs: names that become path components, the paths of sessions, the order of
-- presets and the label of a session. Texts are code points, and file names are valid UTF-8.
pub mod Names
pub mod Safety
pub mod Paths
pub mod Presets
pub mod Order
pub mod Listing
pub mod Joining
pub mod Containment
pub mod Climbing
pub mod Config
