-- ===== src/App.antt =====
-- The server of lwk_app: the state behind its JSON-RPC methods.
pub mod Matching
pub mod Uniqueness
pub mod Checked
pub mod Error
pub mod Method
pub mod Signer
pub mod Signers
pub mod Wollets
pub mod Memos
pub mod Assets
pub mod State
pub mod Handler
pub mod Start
