-- ===== src/Lib.antt =====
-- AlayaFace's desktop backend, in src-tauri/src of the repository: the part that speaks with an
-- AlayaCore subprocess, and the part that decides where sessions and presets live on disk.
--
-- The client asks the backend to start sessions. Each session is a subprocess that writes frames to
-- its stdout, one line each: a tag of two letters and a value. The reader thread of a session takes
-- the frames off the stream, turns each into the event of its tag, and emits the events to the
-- client. A command of the client goes out with an id, which the registry of pending commands holds
-- until the answer comes, so that the answer can be given the name of its command. When the pipe
-- ends, the reader tells the client why, with the last line that the subprocess wrote to stderr.
-- Sessions and presets are directories; ids and names that come from the client become components
-- of their paths, and a session has a label file next to its data.
--
-- The files, and the code that each models:
--   Prelude   the names of the libraries, texts, results, lists and their lemmas
--   Chars     what the code uses of Rust's char and str; texts are lists of code points
--   Json      serde_json and the derived decoders as a record of operations with their laws
--   Wire      src-tauri/src/wire.rs: encode, write_frame, read_frame and decode_line over bytes
--   Pending   PendingCommands of src-tauri/src/session.rs: new, insert and remove
--   Stderr    StderrTail of src-tauri/src/alayacore.rs, and disconnect_message of
--             src-tauri/src/reader.rs
--   Reader    src-tauri/src/reader.rs with the events of src-tauri/src/event.rs: the handlers of the
--             tags, dispatch_frame and the loop of spawn_stdout_reader
--   Sending   src-tauri/src/commands/mod.rs: the frames of commands, and send_cmd with the registry;
--             the commands of src-tauri/src/commands/cmd.rs that it sends
--   Dirs      src-tauri/src/dirs.rs: names, session_path, the order and the list of presets,
--             resolve_config_dir
--   Presets   src-tauri/src/commands/presets.rs, with ensure of src-tauri/src/dirs.rs: the commands on
--             the preset directories and the order file
--   Spawning  the command that spawn of src-tauri/src/alayacore.rs builds, and SpawnArgs of
--             src-tauri/src/dirs.rs with its file
--   Sessions  the map of sessions of src-tauri/src/session.rs, and the commands of
--             src-tauri/src/commands/sessions.rs on it: create, resume, fork, close, list and delete
--   Waiting   the loops that wait: kill_child and close_child_gracefully_with_timeout of
--             src-tauri/src/alayacore.rs, wait_for_file of src-tauri/src/commands/mod.rs
--   Versions  the handshake and the header of a session file of src-tauri/src/alayacore.rs:
--             read_version_frame, session_file_message_version, session_file_rejection
--   Prompt    alayacore_send_prompt of src-tauri/src/commands/io.rs: the frames of a prompt
--   Binary    find_binary of src-tauri/src/alayacore.rs, and check_alayacore of
--             src-tauri/src/commands/cmd.rs
--   Label     src-tauri/src/commands/label.rs, with read_session_label of src-tauri/src/dirs.rs
--   Settings  src-tauri/src/commands/settings.rs: the settings of a preset, normalized and merged
--   Mcp       src-tauri/src/commands/mcp.rs: mcp.conf read and written, the commands that list and replace
--             the servers of a preset, and the OAuth callback
--   Asr       src-tauri/src/commands/asr.rs: the profiles for speech recognition, the header of a
--             recording, the requests of the three protocols and the transcripts of their answers
--   Tests     the theorems at concrete inputs, with a small JSON library
-- The children of a module hold its helpers and its theorems, and are named for what they prove.
--
-- Stateful code passes its state: the stream as the list of chunks that the pipe hands out, the
-- registry as a queue and a map, the reader's flags, cache and emitted events as one record, the
-- label file as its text, the sessions as a map with their directories and spawn files. A mutex makes
-- each operation one step, so that threads are sequences of steps. A byte is a number below 256, a
-- length is a number; the limits of the code are constants
-- of the models (a frame of 64 MiB, 512 pending commands, 20 lines of stderr, a label of 120
-- characters).
--
-- The loop of the reader runs on fuel. Every frame takes at least a byte of the stream, and fuel
-- above the stream's size is enough; the theorems on the loop say so. The loops of Waiting take one
-- unit of fuel per poll, and fuel for the time limit over the interval of the polls is enough. The
-- loop on the chunks of a recording has the recording's length as fuel, and each turn takes eight bytes. The
-- decimal of a count has 20 digits of fuel, as many as a machine word has digits.
--
-- Parameters: serde_json (Json, with its documented laws), and what the file system answers (which
-- paths exist, the texts of files, the entries of directories, the errors of reads and writes).
-- The HTTP client, base64, the decoding of a query and new ids are parameters as well.
-- Paths are those of Unix: whether they are absolute, and their components.
--
-- Not modelled: logging, the spawning of processes and threads, the locks themselves, the Tauri
-- glue, the server that waits for an OAuth callback up to its first connection, and the commands on
-- models, objects, files and ui.conf. The Go backend and the Elm client are other programs.
mod Prelude
pub mod Chars
pub mod Json
pub mod Stderr
pub mod Dirs
pub mod Presets
pub mod Spawning
pub mod Sessions
pub mod Waiting
pub mod Versions
pub mod Prompt
pub mod Asr
pub mod Binary
pub mod Mcp
pub mod Label
pub mod Settings
pub mod Wire
pub mod Pending
pub mod Reader
pub mod Sending
mod Tests
