-- ===== src/Md.antt =====
-- src/libxbdev/md.c: the management of arrays.
pub mod Device
pub mod Create
pub mod Manage
pub mod Report
pub mod Calls
pub mod Table
pub mod Sound
pub mod Valid
pub mod Stored
pub mod Keeps
pub mod Run
pub mod Created
pub mod Stopped
pub mod Undone
pub mod Faults
pub mod Listed
pub mod Tests
