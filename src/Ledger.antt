-- ===== src/Ledger.antt =====
-- The Ledger client, lwk_ledger.
pub mod Apdu
pub mod Merkle
pub mod Interpreter
