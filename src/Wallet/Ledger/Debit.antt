-- ===== src/Wallet/Ledger/Debit.antt =====
-- The debit of a withdrawal is covered by the balance that the same transaction read.
use oyana_backend.Base.{
  String, Bool, ◌≡◌, refl, Option, none, some, List, ◌∷◌, ◌==◌, arith, Bool-cases, inl, inr, eq_iff,
}
use oyana_backend.Base.Int.{ℤ, pos, ◌≤ℤ◌, ltb_ℤ}
use oyana_backend.Base.Table.{find_first, find_first-holds, find_first-All}
use oyana_backend.Value.{get_field}
use oyana_backend.Wallet.Schema.{WalletAccount, WalletWithdrawal}
use oyana_backend.Db.{Db, wallets, withdrawals}
use oyana_backend.Act.{World, create, pure, ◌>>=◌, throw_if, bad_request}
use oyana_backend.Act.Keeps.{Keeps, Keeps-bind, Keeps-pure}
use oyana_backend.Act.Writes.{Keeps-find_row}
use oyana_backend.Act.Promises.{Leads, Leads-bind, Leads-then, Leads-create}
use oyana_backend.Wallet.Paystack.{Env}
use oyana_backend.Wallet.Withdrawal.{
  debit_wallet, touch_bank_account, debit_in_transaction, debit_covered, debit_row, withdrawal_row,
}
use oyana_backend.Wallet.Withdrawal.Destination.{BankDestination}
use oyana_backend.Wallet.Ledger.{IsOwned, IsSoundWallet, ledger}
use oyana_backend.Wallet.Ledger.Named.{IsNamed}
use oyana_backend.Wallet.Ledger.Writes.{Fact, holds_wallet, Knows, Keeps-update_bank_account}
use oyana_backend.Wallet.Ledger.Posting.{debit-at}
use oyana_backend.Wallet.Ledger.Accounts.{
  Keeps-random_uuid, Keeps-now, Keeps-generate_reference, IsOwned-found,
}

debit_row-IsNamed :
    (id : String) (d : WalletWithdrawal) (reason : Option String) (destination : BankDestination)
    → IsNamed (debit_row id d reason destination)
unfolding get_field
debit_row-IsNamed id d reason destination = record { by_intent = tt; by_withdrawal = refl }

module _ (ks : List Fact) (env : Env) where
  Keeps-touch_bank_account : (id : Option String) → Keeps (Knows ks) (touch_bank_account env id)
  unfolding touch_bank_account
  Keeps-touch_bank_account none = Keeps-pure tt
  Keeps-touch_bank_account (some id) =
      Keeps-bind _ _ (Keeps-now (Knows ks) env)
        λ time. Keeps-bind _ _ (Keeps-update_bank_account ks _ _) λ b. Keeps-pure tt

  -- the wallet `k` is there and its ledger covers `x`
  abbrev Covers : String → ℤ → Db → Type 0
  Covers k x d = Knows (holds_wallet k ∷ ks) d × (x ≤ℤ ledger k d.transactions)

  forget : (k : String) (x : ℤ) (d : Db) → Covers k x d → Knows ks d
  forget k x d h = (h.0.0, h.0.1.1)

  debit_wallet-Leads :
      (d : WalletWithdrawal) (reason : Option String) (destination : BankDestination)
      → Leads
          (Covers d.wallet_account_id d.amount_minor)
          (Knows ks)
          (debit_wallet env d reason destination)
  unfolding debit_wallet
  debit_wallet-Leads d reason destination =
      Leads-bind _ _ (forget _ _) _ _ (Keeps-random_uuid _ env) λ id. record {
        at = λ w h.
            debit-at ks (debit_row id d reason destination) refl
              (debit_row-IsNamed id d reason destination) _ _ d.amount_minor w refl refl h.1
              (h.0.0, h.0.1.1) h.0.1.0 (λ r. Keeps-pure tt);
      }

  create_and_debit-Leads :
      (d : WalletWithdrawal) (clashes : WalletWithdrawal → Bool) (reason : Option String)
      (destination : BankDestination)
      → pos 1 ≤ℤ d.amount_minor
      → Leads (Covers d.wallet_account_id d.amount_minor) (Knows ks) (
          create withdrawals clashes d >>= λ d. debit_wallet env d reason destination >>= λ u.
          touch_bank_account env destination.saved_bank_account_id >>= λ u. pure d)
  create_and_debit-Leads d clashes reason destination positive =
      Leads-create _ _ (forget _ _) withdrawals clashes d _
        (λ db h. (
          (
            record {
              wallets_sound = h.0.0.wallets_sound;
              transactions_owned = h.0.0.transactions_owned;
              references_distinct = h.0.0.references_distinct;
              intents_sound = h.0.0.intents_sound;
              withdrawals_sound =
                  (record { owned = h.0.1.0; positive = positive }, h.0.0.withdrawals_sound);
            },
            h.0.1,
          ),
          h.1,
        ))
        (Leads-then _ _ _ _ (debit_wallet-Leads d reason destination) (λ u.
          Keeps-bind _ _ (Keeps-touch_bank_account destination.saved_bank_account_id)
            λ u. Keeps-pure d))

module _ (ks : List Fact) (env : Env) where
  debit_checked :
      (owner k : String) (x : ℤ) (currency : String) (reason : Option String)
      (destination : BankDestination)
      → pos 1 ≤ℤ x
      → Leads
          (Covers ks env k x)
          (Knows ks)
          (debit_covered env owner k x currency reason destination)
  unfolding debit_covered
  debit_checked owner k x currency reason destination positive =
      Leads-bind _ _ (forget ks env k x) _ _ (Keeps-generate_reference _ env "WDR") λ reference.
        Leads-bind _ _ (forget ks env k x) _ _ (Keeps-random_uuid _ env) λ id.
          create_and_debit-Leads ks env (withdrawal_row id owner k reference x currency destination)
            _ reason destination positive

  debit-at_wallet :
      (owner k : String) (x : ℤ) (currency : String) (reason : Option String)
      (destination : BankDestination) (w : World) (a : WalletAccount)
      → pos 1 ≤ℤ x
      → Knows ks w.db
      → find_first (λ a. a.id == k) w.db.wallets ≡ some a
      → Knows ks
          ((throw_if (ltb_ℤ a.balance_minor x) (bad_request "Insufficient wallet balance") >>= λ u.
              debit_covered env owner k x currency reason destination)
            w).1.db
  unfolding ◌>>=◌
  debit-at_wallet owner k x currency reason destination w a positive h found =
      elim (Bool-cases (ltb_ℤ a.balance_minor x)) [
        | inl short ↦ rw short h
        | inr enough ↦
            let same : a.id ≡ k =
              (eq_iff _ _).0 (find_first-holds (λ a. a.id == k) w.db.wallets a found) in
            let s =
              find_first-All (IsSoundWallet w.db.transactions) (λ a. a.id == k) w.db.wallets a
                h.0.wallets_sound found in
            let covered : x ≤ℤ a.balance_minor = ground arith in
            let covered' : x ≤ℤ ledger k w.db.transactions =
              rw (← same) (rw (← s.balanced) covered) in
            let owned : IsOwned w.db.wallets k =
              rw (← same) (IsOwned-found _ w.db.wallets a found) in
            rw enough (
              (debit_checked owner k x currency reason destination positive).at w
                ((h.0, (owned, h.1)), covered'))
      ]

  -- A withdrawal of a positive amount debits what the wallet holds.
  pub Keeps-debit_in_transaction :
      (owner k : String) (x : ℤ) (currency : String) (reason : Option String)
      (destination : BankDestination)
      → pos 1 ≤ℤ x
      → Keeps (Knows ks) (debit_in_transaction env owner k x currency reason destination)
  unfolding debit_in_transaction
  Keeps-debit_in_transaction owner k x currency reason destination positive =
      Keeps-find_row wallets _ _ _
        (λ w h a found. debit-at_wallet owner k x currency reason destination w a positive h found)
