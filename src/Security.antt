-- ===== src/Security.antt =====
-- src/libxbdev/security.c: the table of encrypted volumes, access control and its tokens, and the lists
-- of allowed addresses and users. OpenSSL, SPDK, the allocator and the clock are parameters, and the
-- encryption of requests is not modelled.
pub mod Crypto
pub mod Table
pub mod Volumes
pub mod Access
pub mod Lockout
pub mod Allowed
pub mod Listed
pub mod Tests
