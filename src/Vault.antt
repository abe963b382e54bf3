-- ===== src/Vault.antt =====
-- contracts/prism-vault: Luna is bonded for cLuna, which is unbonded in batches, or split into yLuna
-- and pLuna.
pub mod State
pub mod Sample
pub mod Release
pub mod Exchange
pub mod Unbonding
pub mod Bonding
pub mod Refract
pub mod Admin
pub mod Entry
