-- ===== src/Asr.antt =====
-- Speech recognition: the profiles and the choice of a request, of src-tauri/src/commands/asr.rs. Texts are
-- code points, audio is bytes; the endpoint is what it answers.
pub mod Wav
pub mod Container
pub mod Recording
pub mod Slices
pub mod Profiles
pub mod Normalizing
pub mod Transcribing
pub mod Streams
pub mod Asking
