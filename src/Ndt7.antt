-- ===== src/Ndt7.antt =====
-- The ndt7 protocol: ndt7/.
pub mod Spec
pub mod Model
pub mod Loop
pub mod Download
pub mod Upload
pub mod Receiver
pub mod Measurer
pub mod Listener
pub mod Ping
pub mod Query
pub mod Subtest
pub mod Results
pub mod Requests
pub mod Handler
pub mod Labels
mod Tests
