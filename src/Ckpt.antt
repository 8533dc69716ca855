-- ===== src/Ckpt.antt =====
-- src/util/fmt.h and src/util/fmt.cc: the recording of checkpoints.
pub mod Page
pub mod Seen
pub mod Mem
pub mod Recorded
pub mod Load
pub mod Proxy
pub mod Replay
pub mod Execs
pub mod Fetch
pub mod Partial
pub mod Manager
pub mod Tests
