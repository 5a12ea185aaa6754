-- ===== src/Provider.antt =====
-- Providers: the accounts under which drivers work.
pub mod Schema
pub mod Access
pub mod Reads
