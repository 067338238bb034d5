-- ===== src/ReqQueue.antt =====
-- src/libxbdev/request_queue.c: the queue system `g_queue_ctx` with the pool `g_request_pool`, as
-- one state that each function takes and returns. The children model the functions.
pub mod State
pub mod Align
pub mod Setup
pub mod Client
pub mod Process
pub mod Init
pub mod Submit
pub mod Pool
pub mod Drain
pub mod Rounds
pub mod Idle
pub mod Shutdown
pub mod Tests
