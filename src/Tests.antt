-- ===== src/Tests.antt =====
-- The theorems at concrete inputs, and runs of the model.
mod Samples
mod StoreTests
mod EditTests
mod RunTests
mod UploadTests
mod QueueTests
mod MoverTests
mod SchedulerTests
mod TelegramTests
mod ScannerTests
mod BindingTests
mod SettingsTests
