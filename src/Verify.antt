-- ===== src/Verify.antt =====
-- internal/verify: what a verification of a backup looks at, and what it writes down.
--
-- `Details`, the free-form report, is not modelled; a problem is kept as data in place of its text. The
-- decryption and the decompression, the hash, and the sandbox server are parameters.
pub mod Types
pub mod Format
pub mod Window
pub mod Values
pub mod Assert
pub mod Verifier
pub mod Recording
pub mod Outcomes
pub mod Structural
pub mod Records
