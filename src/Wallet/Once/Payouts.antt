-- ===== src/Wallet/Once/Payouts.antt =====
-- A withdrawal under an idempotency key happens at most once (`createWalletWithdrawal` of
-- src/wallet/wallet.service.ts).
use oyana_backend.Base.{String, refl, not, ◌&&◌, ◌||◌, Option, none, some, ◌==◌, is_some}
use oyana_backend.Base.Int.{ℤ}
use oyana_backend.Value.{Value}
use oyana_backend.Wallet.Schema.{WalletWithdrawal}
use oyana_backend.Db.{Db, withdrawals, wallets, transactions, bank_accounts}
use oyana_backend.Act.Keeps.{
  Keeps, keeps_rules, Keeps-bind, Keeps-try_catch, Keeps-find, Keeps-pure, Keeps-option, Keeps-if,
  Keeps-throw, Keeps-throw_if, Keeps-or_throw, Keeps-transaction,
}
use oyana_backend.Wallet.Paystack.{Env}
use oyana_backend.Wallet.Withdrawal.{
  CreateWalletWithdrawalInput, create_wallet_withdrawal, withdraw, withdraw_from, debit_and_send,
  send_transfer, undo_withdrawal, save_destination, record_transfer, find_destination,
  debit_in_transaction, debit_covered, debit_wallet, touch_bank_account, replay_withdrawal, truthy,
  normalized_transfer_status,
}
use oyana_backend.Wallet.Withdrawal.Destination.{
  BankDestination, get_saved_bank_withdrawal_destination, get_raw_bank_withdrawal_destination,
  persist_saved_bank_account, lookup_bank_name,
}
use oyana_backend.Wallet.Ledger.Accounts.{
  Keeps-random_uuid, Keeps-now, Keeps-generate_reference, Keeps-assert_phone_verified,
  Keeps-normalize_currency, Keeps-get_supported_banks, Keeps-resolve_bank_account,
  Keeps-create_transfer_recipient, Keeps-initiate_transfer,
}
use oyana_backend.Wallet.Once.{
  K, Keeps-create, Keeps-update, Keeps-get_or_create, Keeps-mark_withdrawal_failed_and_reverse,
}
use oyana_backend.Wallet.Once.Keys.{Keeps-with_idempotency}

module _ (o p k : String) (env : Env) where
  abbrev T : Db → Type 0
  T = K o p k env

  Keeps-lookup_bank_name : (code : String) → Keeps T (lookup_bank_name env code)
  unfolding lookup_bank_name
  Keeps-lookup_bank_name code =
      Keeps-try_catch _ _ (Keeps-bind _ _ (Keeps-get_supported_banks T env _) λ banks. Keeps-pure _)
        λ e. Keeps-pure _

  Keeps-find_destination :
      (owner id : String) (input : CreateWalletWithdrawalInput) (currency : String)
      → Keeps T (find_destination env owner id input currency)
  unfolding find_destination get_saved_bank_withdrawal_destination
      get_raw_bank_withdrawal_destination
  Keeps-find_destination owner id input currency =
      Keeps-option (truthy input.saved_bank_account_id) _ _
        (Keeps-bind _ _ (Keeps-resolve_bank_account T env _) λ name.
          Keeps-bind _ _ (Keeps-create_transfer_recipient T env _)
            λ recipient. Keeps-bind _ _ (Keeps-lookup_bank_name _) λ bank. Keeps-pure _)
        (λ saved.
          Keeps-bind _ _ (Keeps-find _ _)
            λ found. Keeps-bind _ _ (Keeps-or_throw found _) λ b. Keeps-pure _)

  Keeps-persist :
      (owner id : String) (d : BankDestination)
      → Keeps T (persist_saved_bank_account env owner id d)
  unfolding persist_saved_bank_account
  Keeps-persist owner id d = Keeps-bind _ _ (Keeps-find _ _) λ existing.
      Keeps-bind _ _ (Keeps-now T env) λ time.
        Keeps-option existing _ _
          (Keeps-bind _ _ (Keeps-random_uuid T env)
            λ u. Keeps-create o p k env bank_accounts (λ l d. refl) _ _)
          (λ b. Keeps-update o p k env bank_accounts (λ l d. refl) _ _)

  Keeps-save_destination :
      (owner id : String) (input : CreateWalletWithdrawalInput) (d : BankDestination)
      → Keeps T (save_destination env owner id input d)
  unfolding save_destination
  Keeps-save_destination owner id input d =
      Keeps-if
        (not (is_some (truthy d.saved_bank_account_id)) && input.save_account && d.persistable) _ _
        (Keeps-bind _ _ (Keeps-persist owner id d) λ b. Keeps-pure _) (Keeps-pure _)

  Keeps-send_transfer :
      (owner id : String) (input : CreateWalletWithdrawalInput) (currency : String)
      (d : BankDestination) (x : WalletWithdrawal)
      → Keeps T (send_transfer env owner id input currency d x)
  unfolding send_transfer record_transfer
  Keeps-send_transfer owner id input currency d x =
      Keeps-bind _ _ (Keeps-initiate_transfer T env _) λ t.
        let status = normalized_transfer_status t.status in
        Keeps-if (status == "failed" || status == "reversed") _ _
          (Keeps-bind _ _ (Keeps-mark_withdrawal_failed_and_reverse o p k env _ _ _)
            λ u. Keeps-throw _)
          (Keeps-bind _ _ (Keeps-save_destination owner id input d) λ saved.
            Keeps-bind _ _
              (Keeps-bind _ _ (Keeps-now T env)
                λ time. Keeps-update o p k env withdrawals (λ l d. refl) _ _)
              λ y. Keeps-pure _)

  Keeps-touch_bank_account : (id : Option String) → Keeps T (touch_bank_account env id)
  unfolding touch_bank_account
  Keeps-touch_bank_account none = Keeps-pure tt
  Keeps-touch_bank_account (some id) = Keeps-bind _ _ (Keeps-now T env) λ time.
      Keeps-bind _ _ (Keeps-update o p k env bank_accounts (λ l d. refl) _ _) λ b. Keeps-pure tt

  Keeps-debit_in_transaction :
      (owner id : String) (x : ℤ) (currency : String) (reason : Option String) (d : BankDestination)
      → Keeps T (debit_in_transaction env owner id x currency reason d)
  unfolding debit_in_transaction debit_covered debit_wallet
  Keeps-debit_in_transaction owner id x currency reason d = Keeps-bind _ _ (Keeps-find _ _) λ found.
      Keeps-bind _ _ (Keeps-or_throw found _) λ a. Keeps-bind _ _ (Keeps-throw_if _ _) λ u.
        Keeps-bind _ _ (Keeps-generate_reference T env _) λ reference.
          Keeps-bind _ _ (Keeps-random_uuid T env) λ u.
            Keeps-bind _ _ (Keeps-create o p k env withdrawals (λ l d. refl) _ _) λ y.
              Keeps-bind _ _
                (Keeps-bind _ _ (Keeps-random_uuid T env) λ v.
                  Keeps-bind _ _ (Keeps-create o p k env transactions (λ l d. refl) _ _) λ t.
                    Keeps-bind _ _ (Keeps-update o p k env wallets (λ l d. refl) _ _)
                      λ a. Keeps-pure tt)
                λ u. Keeps-bind _ _ (Keeps-touch_bank_account _) λ u. Keeps-pure y

  pub Keeps-withdraw :
      (owner : String) (input : CreateWalletWithdrawalInput) (currency : String)
      → Keeps T (withdraw env owner input currency)
  unfolding withdraw withdraw_from debit_and_send undo_withdrawal
  Keeps-withdraw owner input currency = Keeps-bind _ _ (Keeps-get_or_create o p k env owner) λ a.
      Keeps-bind _ _ (Keeps-find_destination owner a.id input currency) λ d.
        Keeps-bind _ _ (Keeps-transaction _ (Keeps-debit_in_transaction owner a.id _ currency _ d))
          λ x. Keeps-try_catch _ _ (Keeps-send_transfer owner a.id input currency d x) λ e.
            Keeps-bind _ _ (Keeps-mark_withdrawal_failed_and_reverse o p k env _ _ _)
              λ u. Keeps-throw e

  Keeps-replay_withdrawal : (owner : String) (v : Value) → Keeps T (replay_withdrawal owner v)
  unfolding replay_withdrawal
  Keeps-replay_withdrawal owner v = search keeps_rules

  pub Keeps-create_wallet_withdrawal :
      (owner : String) (input : CreateWalletWithdrawalInput)
      → Keeps T (create_wallet_withdrawal env owner input)
  unfolding create_wallet_withdrawal
  Keeps-create_wallet_withdrawal owner input =
      Keeps-bind _ _ (Keeps-assert_phone_verified T owner) λ u.
        Keeps-bind _ _ (Keeps-normalize_currency T input.currency) λ currency.
          Keeps-bind _ _ (Keeps-throw_if _ _) λ u. Keeps-bind _ _ (Keeps-throw_if _ _) λ u.
            Keeps-with_idempotency o p k env owner _ _ _ _ _ (Keeps-replay_withdrawal owner)
              (Keeps-withdraw owner input currency)
