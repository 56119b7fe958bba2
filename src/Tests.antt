-- ===== src/Tests.antt =====
-- Runs of the model at concrete inputs, and the theorems applied there.
mod Toys
mod Server
mod Coins
mod Wollet
mod Spending
mod Recipients
mod Encoding
mod Scanning
mod App
mod Merkle
mod Interpreter
mod Issuing
mod Signing
mod Storing
