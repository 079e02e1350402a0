-- ===== src/Agent.antt =====
-- The agent on a device host (agent/internal). It runs one package on one device by adb commands from
-- a fixed list. What adb, the file system and the network answer is the environment's.
pub mod Text
pub mod Adb
pub mod Run
pub mod Blame
pub mod Locate
pub mod Precheck
pub mod Deploy
pub mod Quiet
pub mod Execute
pub mod Journal
pub mod Reporter
pub mod Server
pub mod TaskRun
pub mod Results
mod Tests
mod TaskTests
