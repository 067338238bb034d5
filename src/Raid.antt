-- ===== src/Raid.antt =====
-- src/libxbdev/raid.c: hot spares, event callbacks and the check of an array's state. The calls of
-- SPDK's RAID module, by which arrays are made and changed, are parameters.
pub mod Spares
pub mod Find
pub mod Events
pub mod Status
pub mod Slots
pub mod Records
pub mod Asked
pub mod Failures
pub mod Monitor
pub mod Undo
pub mod Tests
