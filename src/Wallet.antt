-- ===== src/Wallet.antt =====
-- src/wallet: wallet accounts, funding and withdrawals through Paystack.
pub mod Schema
pub mod Paystack
pub mod Account
pub mod Email
pub mod Idempotency
pub mod Card
pub mod Finalize
pub mod Funding
pub mod Withdrawal
pub mod Webhook
pub mod Once
pub mod Ledger
mod Tests
