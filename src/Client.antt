-- ===== src/Client.antt =====
-- cmd/vitrum: the host-side command line.
pub mod Clock
pub mod Commands
pub mod Feed
pub mod KeyFiles
pub mod LogClient
pub mod Logs
pub mod Pin
pub mod Record
pub mod Selftest
