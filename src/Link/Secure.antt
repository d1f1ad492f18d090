-- ===== src/Link/Secure.antt =====
-- link/src/secure.rs: the sealed session with its sequence numbers, the fragments of a handshake
-- message, the handshake, and its use by the kernel.
pub mod Session
pub mod Fragments
pub mod Handshake
pub mod Connect
