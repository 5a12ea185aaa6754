-- ===== src/Wallet/Withdrawal/Debited.antt =====
-- What the debit of a withdrawal does to the balances (`createWalletWithdrawal` of
-- src/wallet/wallet.service.ts).
use oyana_backend.Base.{
  String, Bool, false, ◌≡◌, refl, Option, none, some, List, ◌==◌, Bool-cases, Option-cases, inl,
  inr, ap, subst,
}
use oyana_backend.Base.Int.{ℤ, ◌-ℤ◌, ltb_ℤ}
use oyana_backend.Base.Table.{find_first, update_where, exists}
use oyana_backend.Wallet.Schema.{WalletAccount, WalletWithdrawal}
use oyana_backend.Db.{Db, withdrawals, transactions, wallets}
use oyana_backend.Act.{World, ◌>>=◌, find, create, update, transaction, pure}
use oyana_backend.Act.Keeps.{Keeps, Keeps-bind, Keeps-pure}
use oyana_backend.Act.Writes.{Keeps-create_by, Keeps-update_by}
use oyana_backend.Act.Ends.{Ends, Ends-bind, Ends-Keeps, Ends-map, Whole, transaction-Whole}
use oyana_backend.Wallet.Paystack.{Env, random_uuid}
use oyana_backend.Wallet.Account.{generate_reference}
use oyana_backend.Wallet.Withdrawal.{
  debit_wallet, debit_covered, debit_in_transaction, touch_bank_account, withdrawal_row,
}
use oyana_backend.Wallet.Withdrawal.Destination.{BankDestination}
use oyana_backend.Wallet.Ledger.Accounts.{Keeps-now, Keeps-random_uuid, Keeps-generate_reference}

abbrev pub take_out : String → ℤ → List WalletAccount → List WalletAccount
take_out k x ws =
    update_where (λ w. w.id == k) (λ w. record w { balance_minor = w.balance_minor -ℤ x }) ws

-- the wallet is there and holds at least the amount
abbrev pub Holds : String → ℤ → List WalletAccount → Type 0
Holds k x ws =
    (a : WalletAccount) × (find_first (λ w. w.id == k) ws ≡ some a)
    × (ltb_ℤ a.balance_minor x ≡ false)

module _ (env : Env) (ws : List WalletAccount) where
  abbrev Same : Db → Type 0
  Same d = d.wallets ≡ ws

  Keeps-touch_bank_account : (id : Option String) → Keeps Same (touch_bank_account env id)
  unfolding touch_bank_account
  Keeps-touch_bank_account none = Keeps-pure tt
  Keeps-touch_bank_account (some id) =
      Keeps-bind _ _ (Keeps-now Same env)
        λ time. Keeps-bind _ _ (Keeps-update_by _ _ _ (λ d h. h)) λ b. Keeps-pure tt

  create_withdrawal-Ends :
      (clashes : WalletWithdrawal → Bool) (row : WalletWithdrawal) (w : World)
      → Same w.db
      → Ends (λ d db. (d ≡ row) × Same db) (create withdrawals clashes row w)
  unfolding create
  create_withdrawal-Ends clashes row w h = elim (Bool-cases (exists clashes w.db.withdrawals)) [
    | inl taken ↦ rw taken tt
    | inr new ↦ rw new (refl, h)
  ]

  lower-Ends :
      (k : String) (x : ℤ) (w : World)
      → Same w.db
      → Ends
          (λ a db. db.wallets ≡ take_out k x ws)
          (update wallets
            (λ w. w.id == k)
            (λ w. record w { balance_minor = w.balance_minor -ℤ x })
            w)
  unfolding update
  lower-Ends k x w h = elim (Option-cases (find_first (λ w. w.id == k) w.db.wallets)) [
    | inl gone ↦ rw gone tt
    | inr (a, found) ↦ rw found (ap (take_out k x) h)
  ]

  debit_wallet-Ends :
      (d : WalletWithdrawal) (reason : Option String) (destination : BankDestination) (w : World)
      → Same w.db
      → Ends
          (λ u db. db.wallets ≡ take_out d.wallet_account_id d.amount_minor ws)
          (debit_wallet env d reason destination w)
  unfolding debit_wallet
  debit_wallet-Ends d reason destination w h =
      Ends-bind _ (λ id db. Same db) (random_uuid env) _ w
        (Ends-Keeps Same _ w (Keeps-random_uuid Same env) h)
        λ id w1 h1.
          Ends-bind _ (λ t db. Same db) (create transactions _ _) _ w1
            (Ends-Keeps Same _ w1 (Keeps-create_by transactions _ _ (λ d new h. h)) h1)
            λ t w2 h2.
              Ends-bind _ (λ a db. db.wallets ≡ take_out d.wallet_account_id d.amount_minor ws)
                (update wallets _ _) _ w2 (lower-Ends d.wallet_account_id d.amount_minor w2 h2)
                λ a w3 h3. h3

module _ (env : Env) (ws : List WalletAccount) where
  abbrev Taken : String → ℤ → Db → Type 0
  Taken k x d = d.wallets ≡ take_out k x ws

  -- after the withdrawal's row is there
  post_debit-Ends :
      (d row : WalletWithdrawal) (reason : Option String) (destination : BankDestination)
      (w : World)
      → d ≡ row
      → Same env ws w.db
      → Ends
          (λ e db. Taken row.wallet_account_id row.amount_minor db)
          ((debit_wallet env d reason destination >>= λ u.
              touch_bank_account env destination.saved_bank_account_id >>= λ u. pure d)
            w)
  post_debit-Ends d row reason destination w same h =
      let taken = λ (db : Db). Taken d.wallet_account_id d.amount_minor db in
      subst
        (λ (r : WalletWithdrawal).
          Ends (λ e db. Taken r.wallet_account_id r.amount_minor db)
            ((debit_wallet env d reason destination >>= λ u.
                touch_bank_account env destination.saved_bank_account_id >>= λ u. pure d)
              w))
        same
        (Ends-bind (λ e db. taken db) (λ u db. taken db) (debit_wallet env d reason destination) _ w
          (debit_wallet-Ends env ws d reason destination w h)
          λ u w1 h1.
            Ends-bind (λ e db. taken db) (λ u db. taken db) (touch_bank_account env _) (λ u. pure d)
              w1
              (Ends-Keeps taken _ w1
                (Keeps-touch_bank_account env (take_out d.wallet_account_id d.amount_minor ws) _)
                h1)
              λ u w2 h2. h2)

  pub debit_covered-Ends :
      (owner k : String) (x : ℤ) (currency : String) (reason : Option String)
      (destination : BankDestination) (w : World)
      → Same env ws w.db
      → Ends (λ d db. Taken k x db) (debit_covered env owner k x currency reason destination w)
  unfolding debit_covered
  debit_covered-Ends owner k x currency reason destination w h =
      let same = Same env ws in
      Ends-bind _ (λ r db. same db) (generate_reference env "WDR") _ w
        (Ends-Keeps same _ w (Keeps-generate_reference same env "WDR") h)
        λ reference w1 h1.
          Ends-bind _ (λ r db. same db) (random_uuid env) _ w1
            (Ends-Keeps same _ w1 (Keeps-random_uuid same env) h1)
            λ id w2 h2.
              let row = withdrawal_row id owner k reference x currency destination in
              Ends-bind _ (λ d db. (d ≡ row) × same db) (create withdrawals _ row) _ w2
                (create_withdrawal-Ends env ws _ row w2 h2)
                λ d w3 (is_row, h3). post_debit-Ends d row reason destination w3 is_row h3

module _ (env : Env) where
  debit_in_transaction-Ends :
      (owner k : String) (x : ℤ) (currency : String) (reason : Option String)
      (destination : BankDestination) (w : World)
      → Ends
          (λ d db. Holds k x w.db.wallets × (db.wallets ≡ take_out k x w.db.wallets))
          (debit_in_transaction env owner k x currency reason destination w)
  unfolding debit_in_transaction ◌>>=◌ find
  debit_in_transaction-Ends owner k x currency reason destination w =
      elim (Option-cases (find_first (λ w. w.id == k) w.db.wallets)) [
        | inl gone ↦ rw gone tt
        | inr (a, found) ↦ elim (Bool-cases (ltb_ℤ a.balance_minor x)) [
          | inl short ↦ rw (found, short) tt
          | inr enough ↦
              Ends-map (λ d db. db.wallets ≡ take_out k x w.db.wallets)
                (λ d db. Holds k x w.db.wallets × (db.wallets ≡ take_out k x w.db.wallets))
                (debit_in_transaction env owner k x currency reason destination w)
                (λ d db taken. ((a, found, enough), taken))
                (rw (found, enough)
                  (debit_covered-Ends env w.db.wallets owner k x currency reason destination w
                    refl))
        ]
      ]

-- The transaction of a withdrawal either throws and leaves the database as it was, or the wallet was
-- there and held at least the amount, and exactly the amount has been taken out of it.
pub debit_in_transaction-Whole :
    (env : Env) (owner k : String) (x : ℤ) (currency : String) (reason : Option String)
    (destination : BankDestination) (w : World)
    → Whole
        (λ d db. Holds k x w.db.wallets × (db.wallets ≡ take_out k x w.db.wallets))
        w.db
        (transaction (debit_in_transaction env owner k x currency reason destination) w)
debit_in_transaction-Whole env owner k x currency reason destination w =
    transaction-Whole _ (debit_in_transaction env owner k x currency reason destination) w
      (debit_in_transaction-Ends env owner k x currency reason destination w)
