-- ===== src/Tests.antt =====
-- Tests of the definitions, and the theorems at inputs that meet their hypotheses.
mod ToyJson
mod WireTests
mod PendingTests
mod ReaderTests
mod DirsTests
mod LabelTests
mod McpTests
mod ToySettings
mod SettingsTests
mod SendingTests
mod PresetTests
mod SessionTests
mod WaitingTests
mod VersionTests
mod PromptTests
mod BinaryTests
mod ToySpawn
mod ToyAsr
mod AsrTests
