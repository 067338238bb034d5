-- ===== src/Lib.antt =====
-- nblock: a library that offers SPDK block devices to ordinary threads. User threads put request
-- objects into queues, and an SPDK thread takes them out, calls the function that the request's type
-- names, and tells the waiting thread or the user's function. This development models the two request
-- queues of the library, which have the same interface and different implementations, its list of
-- devices, its table of file descriptors with the functions that run the requests, the hot spares,
-- events and state checks of its RAID arrays, the table of these arrays, its logical volumes, its
-- security (encrypted volumes, users and tokens), its batches of I/O requests, and the collection of
-- statistics with their history.
--
-- Shared parts
--   Prelude      names of the libraries; tests on numbers, C arrays as lists, masks, error numbers,
--                strings, and the window of a circular buffer
--   Fifo         what both queues promise: a bounded first-in first-out list of requests
--   Request      `xbdev_request_t`, the switch on the request's type, and what others can observe
--   Flags        the flags of a request pool, and the search for a free place
--   Sync         how a function has its work done on an SPDK thread, by a synchronous request
--
-- src/libxbdev/request_queue.c
--   Ring         `xbdev_ring_t` and `ring_init`, `ring_fini`, `ring_enqueue`, `ring_dequeue`; Inv has the
--                invariant, Refine the refinement of Fifo
--   ReqQueue     State: `g_queue_ctx`, `g_request_pool` and `get_current_thread_queue`; Align: the loop that
--                rounds the size up; Setup: `xbdev_queue_init` and `xbdev_queue_fini`; Client:
--                `xbdev_request_alloc`, `xbdev_sync_request_alloc`, `xbdev_request_free`,
--                `xbdev_request_submit`, `xbdev_sync_request_execute`, `xbdev_response_receive` and
--                `xbdev_queue_get_stats`; Process: `xbdev_process_request_queues`. The proofs are in
--                Init, Submit, Pool, Drain, Rounds, Idle and Shutdown
--
-- src/libxbdev/queue.c
--   LockedQueue  `init_queue`, `destroy_queue`, `enqueue_request` and `dequeue_request`, with the refinement
--                of Fifo in Refine. System: `g_queue_system`, its start and end and `get_queue_index`;
--                Client: the pool, submission, `xbdev_batch_requests` and
--                `xbdev_mark_request_complete`; Wait: `xbdev_request_wait` and the synchronous call;
--                Process: `xbdev_process_next_request` and `xbdev_process_request_queues`; Stats:
--                `xbdev_get_queue_stats`. The proofs are in Batch, Serve, Deadline, Pool, Start, Submit and
--                Totals. Of the functions that the file defines twice, the second definition is modelled
--
-- src/libxbdev/device_list.c
--   DeviceList   the linked list and its functions; Scan: `xbdev_scan_devices` and its callers; Entries
--                and Listing: what a change of an entry and a scan leave
--
-- src/libxbdev/core.c and src/libxbdev/request_handler.c
--   FdTable      `g_fd_list` and `g_next_fd`, `xbdev_init`, `xbdev_fini`, `xbdev_open` and `xbdev_close`;
--                Handlers: the functions that run a read, a write, an unmap, a reset, a flush or a close
--                on an SPDK thread, which find the device in the table, and the asynchronous read and
--                write. Inv, Owned and Run have the invariant of the table, Serve and Aio what the handlers
--                do with it
--
-- src/libxbdev/raid.c
--   Raid         Spares: the list of hot spares; Events: the callbacks and the state of the file; Status:
--                `_xbdev_raid_check_status` and `_xbdev_raid_handle_disk_failure`, which raise events and
--                take spares; Monitor: the timer and the start and end of the module. The proofs are in
--                Find, Undo, Slots, Records, Asked and Failures
--
-- src/libxbdev/md.c
--   Md           Device: the table of arrays and its searches, the start and end of the module; Create:
--                `xbdev_md_create_on_thread` and the functions that assemble and stop an array; Manage:
--                spares, failed disks, replacement and rebuild; Report: examination and detail; Calls: the
--                functions for ordinary threads, which send a synchronous request. The proofs are in
--                Table, Sound, Valid, Stored, Keeps and Run, Created and Stopped, Undone, Faults and Listed
--
-- src/libxbdev/security.c
--   Security     Crypto: the table of encrypted volumes; Access: the mode of access, passwords and tokens;
--                Allowed: the lists of users and addresses. The proofs are in Table and Volumes, Lockout
--                and Listed
--
-- src/libxbdev/io.c
--   IoBatch      batches of requests, from `xbdev_io_batch_create` to `xbdev_io_batch_get_results`; a batch
--                takes its requests from the pool of LockedQueue and goes to its queues. The proofs are in
--                Undo, Submit and Wait
--
-- src/libxbdev/stats.c
--   Stats        the history of samples, a circular array; Slots has its indices, Recent what it holds.
--                Collect: `g_stats_contexts`, the start and end of the module and of the collection for
--                a device, and the run of a poller; Report: what is told and reset. The proofs are in
--                Accounts and Pollers, which count SPDK's pollers, and Listed
--
-- src/libxbdev/lvol.c
--   Lvol         the functions that make, change and describe stores of volumes and volumes, each on the
--                SPDK thread and for ordinary threads, and `_xbdev_parse_lvol_name`. The proofs are in
--                Names, Sizes and Calls
--
-- How the code is modelled. A function takes the state and returns its result with the new state. A
-- pointer to a request is the request's place in its pool, and NULL is `none`. `uint32_t` and
-- `uint64_t` arithmetic has its wrap-around written out. Each function is one step: locks, conditions,
-- memory barriers and logging are left out, and a wait gets what happens meanwhile as a parameter.
-- What SPDK, the C library and the handlers of the requests do is a parameter too.
--
-- Loops that may not end have fuel. The rounding loop has 33 rounds, which is enough for each size for
-- which it ends; the loop over a ring has one round more than the ring has slots; the wait of
-- `xbdev_queue_fini` has any number of rounds.
--
-- Not modelled: `xbdev_queue_benchmark`, which measures time; the first definitions of the functions that
-- src/libxbdev/queue.c defines twice; in src/libxbdev/raid.c what makes, assembles and changes arrays by
-- SPDK's RAID module, and the monitor thread; in src/libxbdev/request_handler.c the handlers that
-- register, open and remove devices; in src/libxbdev/security.c the encryption itself, the audit log and
-- the reading and writing of the configuration; in src/libxbdev/stats.c the rates, averages and alerts,
-- which are calculated with floats, and `xbdev_stats_get_devices`; and the other files of the library
-- (the I/O functions but for batches, base devices, configuration, management), most of which call SPDK.
-- The user's functions are taken not to call the library while they run.
pub mod Prelude
pub mod Fifo
pub mod Ring
pub mod Request
pub mod Flags
pub mod ReqQueue
pub mod LockedQueue
pub mod DeviceList
pub mod Raid
pub mod FdTable
pub mod Security
pub mod IoBatch
pub mod Sync
pub mod Stats
pub mod Md
pub mod Lvol
