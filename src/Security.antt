-- ===== src/Security.antt =====
-- node_agent/security.py, one child for each of its classes and for its functions.
pub mod Replay
pub mod Cipher
pub mod Identity
pub mod Signature
