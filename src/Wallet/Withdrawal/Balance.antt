-- ===== src/Wallet/Withdrawal/Balance.antt =====
-- What a debit and its reversal do to the balances (`createWalletWithdrawal` and
-- `markWithdrawalFailedAndReverse` of src/wallet/wallet.service.ts).
use oyana_backend.Base.{
  String, Bool, false, ◌≡◌, refl, Option, some, List, if◌then◌else◌, ◌==◌, Bool-cases, Option-cases,
  inl, inr,
}
use oyana_backend.Base.Int.{◌+ℤ◌}
use oyana_backend.Base.Table.{find_first, update_where, exists, exists-or, exists-none, exists-some}
use oyana_backend.Value.{Value}
use oyana_backend.Wallet.Schema.{WalletAccount, WalletTransaction, WalletWithdrawal, is_reversed}
use oyana_backend.Db.{Db}
use oyana_backend.Act.{World, ◌>>=◌, find, create, update, ask}
use oyana_backend.Act.Keeps.{Keeps, Keeps-bind, Keeps-pure}
use oyana_backend.Act.Writes.{Keeps-update_by}
use oyana_backend.Act.Ends.{Ends, Ends-bind, Ends-Keeps, Whole, transaction-Whole}
use oyana_backend.Wallet.Paystack.{Env, random_uuid}
use oyana_backend.Wallet.Account.{get_withdrawal_reversal_reference}
use oyana_backend.Wallet.Withdrawal.Reversal.{
  settle_reversal, credit_reversal, mark_reversed, reverse_unless_reversed, reverse_in_transaction,
  mark_withdrawal_failed_and_reverse,
}
use oyana_backend.Wallet.Ledger.Accounts.{Keeps-now}

abbrev has_reversal : String → WalletTransaction → Bool
has_reversal id t = t.reference == get_withdrawal_reversal_reference id

abbrev pub pay_back : WalletWithdrawal → List WalletAccount → List WalletAccount
pay_back d ws =
    update_where (λ w. w.id == d.wallet_account_id)
      (λ w. record w { balance_minor = w.balance_minor +ℤ d.amount_minor }) ws

-- a withdrawal is paid back unless it was
abbrev pub repaid_wallets : WalletWithdrawal → Db → List WalletAccount
repaid_wallets d before =
    if exists (has_reversal d.id) before.transactions
    then before.wallets
    else pay_back d before.wallets

abbrev pub reversed_wallets : WalletWithdrawal → Db → List WalletAccount
reversed_wallets d before = if is_reversed d.status then before.wallets else repaid_wallets d before

module _ (env : Env) where
  settle_reversal-Ends :
      (reason : String) (d : WalletWithdrawal) (w : World)
      → exists (λ t. t.id == env.uuid w.asked) w.db.transactions ≡ false
      → Ends (λ u db. db.wallets ≡ repaid_wallets d w.db) (settle_reversal env d reason w)
  unfolding settle_reversal credit_reversal ◌>>=◌ find create update random_uuid ask
  settle_reversal-Ends reason d w fresh =
      let clash =
        exists-or (λ (t : WalletTransaction). t.id == env.uuid w.asked) (has_reversal d.id)
          w.db.transactions in
      elim (Option-cases (find_first (has_reversal d.id) w.db.transactions)) [
        | inr (t, e) ↦ rw (e, exists-some _ _ _ e) refl
        | inl e ↦ elim (Option-cases (find_first (λ a. a.id == d.wallet_account_id) w.db.wallets)) [
          | inl gone ↦ rw (e, clash, fresh, exists-none _ _ e, gone) tt
          | inr (a, found) ↦
              rw (e, clash, fresh, exists-none _ _ e, found) (rw (exists-none _ _ e) refl)
        ]
      ]

  Keeps-mark_reversed :
      (ws : List WalletAccount) (id reason : String) (v : Option Value)
      → Keeps (λ db. db.wallets ≡ ws) (mark_reversed env id reason v)
  unfolding mark_reversed
  Keeps-mark_reversed ws id reason v =
      Keeps-bind _ _ (Keeps-now _ env)
        λ time. Keeps-bind _ _ (Keeps-update_by _ _ _ (λ d h. h)) λ d. Keeps-pure tt

  reverse_unless_reversed-Ends :
      (reason : String) (v : Option Value) (d : WalletWithdrawal) (w : World)
      → exists (λ t. t.id == env.uuid w.asked) w.db.transactions ≡ false
      → Ends
          (λ u db. db.wallets ≡ reversed_wallets d w.db)
          (reverse_unless_reversed env d reason v w)
  unfolding reverse_unless_reversed
  reverse_unless_reversed-Ends reason v d w fresh = elim (Bool-cases (is_reversed d.status)) [
    | inl done ↦ rw done refl
    | inr open' ↦ rw open' (
        Ends-bind (λ u db. db.wallets ≡ repaid_wallets d w.db)
          (λ u db. db.wallets ≡ repaid_wallets d w.db) (settle_reversal env d reason) _ w
          (settle_reversal-Ends reason d w fresh)
          λ u w' same.
            Ends-Keeps (λ db. db.wallets ≡ repaid_wallets d w.db) _ w'
              (Keeps-mark_reversed _ d.id reason v) same)
  ]

  reverse_in_transaction-Ends :
      (d : WalletWithdrawal) (reason : String) (v : Option Value) (w : World)
      → find_first (λ e. e.id == d.id) w.db.withdrawals ≡ some d
      → exists (λ t. t.id == env.uuid w.asked) w.db.transactions ≡ false
      → Ends
          (λ u db. db.wallets ≡ reversed_wallets d w.db)
          (reverse_in_transaction env d.id reason v w)
  unfolding reverse_in_transaction ◌>>=◌ find
  reverse_in_transaction-Ends d reason v w found fresh =
      rw found (reverse_unless_reversed-Ends reason v d w fresh)

-- For a withdrawal that is there, and an id that is new: the reversal either throws and leaves the
-- database as it was, or it has paid back exactly the withdrawal's amount, unless the withdrawal
-- was reversed or its reversal posted before, when no balance changes.
pub mark_withdrawal_failed_and_reverse-Whole :
    (env : Env) (d : WalletWithdrawal) (reason : String) (v : Option Value) (w : World)
    → find_first (λ e. e.id == d.id) w.db.withdrawals ≡ some d
    → exists (λ t. t.id == env.uuid w.asked) w.db.transactions ≡ false
    → Whole
        (λ u db. db.wallets ≡ reversed_wallets d w.db)
        w.db
        (mark_withdrawal_failed_and_reverse env d.id reason v w)
unfolding mark_withdrawal_failed_and_reverse
mark_withdrawal_failed_and_reverse-Whole env d reason v w found fresh =
    transaction-Whole _ (reverse_in_transaction env d.id reason v) w
      (reverse_in_transaction-Ends env d reason v w found fresh)
