-- ===== src/Wallet/Ledger.antt =====
-- What the wallet tables promise together: the balance of a wallet is the sum of its completed
-- transactions, no balance is negative, and every row belongs to a wallet that is there.
pub mod Rows
pub mod Named
pub mod Writes
pub mod Posting
pub mod Accounts
pub mod Funding
pub mod Withdrawal
pub mod Debit
pub mod Keys
pub mod Deposits
pub mod Payouts
pub mod Requests
use oyana_backend.Base.{
  String, Bool, true, false, ⊤, ◌&&◌, ◌≡◌, Option, List, [], ◌∷◌, if◌then◌else◌, ◌==◌,
}
use oyana_backend.Base.Int.{ℤ, pos, ◌+ℤ◌, ◌-ℤ◌, ◌≤ℤ◌}
use oyana_backend.Base.Table.{All, exists}
use oyana_backend.Wallet.Schema.{
  WalletAccount, WalletTransaction, PaymentIntent, WalletWithdrawal, TransactionDirection, credit,
  debit, is_completed,
}
use oyana_backend.Db.{Db}

abbrev pub has_id : String → WalletAccount → Bool
has_id k w = w.id == k

abbrev pub has_wallet : String → List WalletAccount → Bool
has_wallet k ws = exists (has_id k) ws

abbrev signed : TransactionDirection → ℤ → ℤ → ℤ
signed credit amount rest = rest +ℤ amount
signed debit amount rest = rest -ℤ amount

abbrev counts : String → WalletTransaction → Bool
counts k t = t.wallet_account_id == k && is_completed t.status

-- Credits less debits among the completed transactions of a wallet.
unfoldable pub ledger : String → List WalletTransaction → ℤ
ledger k [] = pos 0
ledger k (t ∷ ts) =
    let rest = ledger k ts in if counts k t then signed t.direction t.amount_minor rest else rest

pub record IsSoundWallet (ts : List WalletTransaction) (w : WalletAccount) : Type 0 where
  pub balanced : w.balance_minor ≡ ledger w.id ts
  pub solvent : pos 0 ≤ℤ w.balance_minor

abbrev pub IsOwned : List WalletAccount → String → Type 0
IsOwned ws k = has_wallet k ws ≡ true

pub record IsSoundIntent (ws : List WalletAccount) (i : PaymentIntent) : Type 0 where
  pub owned : IsOwned ws i.wallet_account_id
  pub positive : pos 1 ≤ℤ i.amount_minor

pub record IsSoundWithdrawal (ws : List WalletAccount) (d : WalletWithdrawal) : Type 0 where
  pub owned : IsOwned ws d.wallet_account_id
  pub positive : pos 1 ≤ℤ d.amount_minor

abbrev pub has_reference : String → WalletTransaction → Bool
has_reference r t = t.reference == r

-- No two transactions have the same reference.
abbrev pub AreDistinct : List WalletTransaction → Type 0
AreDistinct [] = ⊤
AreDistinct (t ∷ ts) = (exists (has_reference t.reference) ts ≡ false) × AreDistinct ts

pub record Sound (ws : List WalletAccount) (ts : List WalletTransaction) (is : List PaymentIntent)
    (ds : List WalletWithdrawal) : Type 0 where
  pub wallets_sound : All (IsSoundWallet ts) ws
  pub transactions_owned : All (λ t. IsOwned ws t.wallet_account_id) ts
  pub references_distinct : AreDistinct ts
  pub intents_sound : All (IsSoundIntent ws) is
  pub withdrawals_sound : All (IsSoundWithdrawal ws) ds

abbrev pub IsSound : Db → Type 0
IsSound d = Sound d.wallets d.transactions d.intents d.withdrawals
