-- ===== src/Vault.antt =====
-- vault/: clear PIN blocks, and what is made with block ciphers.
pub mod PinBlock
pub mod Cipher
pub mod Mac
pub mod Dukpt
pub mod KeyBlock
