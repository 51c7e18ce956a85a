-- ===== src/Tests.antt =====
-- Runs of the library's theorems at concrete inputs.
pub mod Imports
pub mod Fetches
pub mod Threads
pub mod Routes
pub mod Dumps
pub mod Templates
pub mod Store
pub mod Seeks
pub mod Queues
pub mod Archive
pub mod Workers
pub mod Uris
pub mod Rendered
pub mod Escapes
pub mod Pages
pub mod Documents
pub mod Answers
