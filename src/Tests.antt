-- ===== src/Tests.antt =====
-- The theorems at concrete inputs.
mod Samples
mod EntryTests
mod BufferTests
mod KeyTests
mod SealedTests
mod ControllerTests
mod WorkerTests
mod PipeTests
mod GpuTests
mod SettingsTests
mod LoraHistoryTests
mod UpdateTests
