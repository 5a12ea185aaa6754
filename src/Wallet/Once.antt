-- ===== src/Wallet/Once.antt =====
-- An idempotency key that was taken stays taken, whatever the wallet does afterwards
-- (src/wallet/wallet.service.ts).
pub mod Keys
pub mod Payouts
pub mod Deposits
pub mod Requests
pub mod Fundings
use oyana_backend.Base.{String, Bool, true, ◌≡◌, refl, Option, none, some, List, ◌==◌, ◌&&◌, ◌||◌}
use oyana_backend.Base.Text.{trim}
use oyana_backend.Base.Table.{exists, update_where}
use oyana_backend.Value.{Value}
use oyana_backend.Wallet.Schema.{
  PaymentIntent, WalletWithdrawal, WalletAccount, WalletIdempotencyKey, is_succeeded, is_reversed,
}
use oyana_backend.Db.{
  Db, Table, keys, wallets, transactions, intents, withdrawals, cards, bank_accounts,
}
use oyana_backend.Act.{Act, Error, create, update, update_many, is_unique_constraint_error}
use oyana_backend.Act.Keeps.{
  Keeps, keeps_rules, Keeps-bind, Keeps-try_catch, Keeps-try_else, Keeps-find, Keeps-pure,
  Keeps-option, Keeps-if, Keeps-throw, Keeps-throw_if, Keeps-or_throw, Keeps-transaction,
  Keeps-lift,
}
use oyana_backend.Act.Writes.{Keeps-create_by, Keeps-update_by, Keeps-update_many_by}
use oyana_backend.Wallet.Paystack.{Env}
use oyana_backend.Wallet.Idempotency.{is_same_key}
use oyana_backend.Wallet.Account.{
  get_or_create_wallet_account, open_wallet, create_wallet, adopt_wallet,
}
use oyana_backend.Wallet.Finalize.{
  credit_topup, adopt_topup, settle_topup, mark_intent_failed, mark_intent_succeeded,
  finalize_found, finalize_in_transaction, finalize_funding_intent, finalize_funding_by_reference,
}
use oyana_backend.Wallet.Withdrawal.Reversal.{
  mark_withdrawal_succeeded, settle_reversal, credit_reversal, mark_reversed,
  reverse_unless_reversed, reverse_in_transaction, mark_withdrawal_failed_and_reverse,
  mark_withdrawal_failed_by_reference,
}
use oyana_backend.Wallet.Finalize.Frame.{Keeps-check_verification, Keeps-remember_card}
use oyana_backend.Wallet.Ledger.Accounts.{Keeps-random_uuid, Keeps-now, Keeps-require_profile}

-- the owner has used the key for the operation
abbrev pub Taken : String → String → String → Db → Type 0
Taken owner operation key d = exists (is_same_key owner operation key) d.keys ≡ true

-- A table whose writes leave the keys alone.
abbrev pub IsApart : {R : Type 0} → Table R → Type 0
IsApart {R = R} t = (l : List R) (d : Db) → (t.write l d).keys ≡ d.keys

module _ (owner operation key : String) (env : Env) where
  abbrev pub K : Db → Type 0
  K = Taken owner operation key

  module _ {R : Type 0} (t : Table R) (apart : IsApart t) where
    pub Keeps-create : (clashes : R → Bool) (row : R) → Keeps K (create t clashes row)
    Keeps-create clashes row = Keeps-create_by t clashes row (λ d new h. rw (apart _ d) h)

    pub Keeps-update : (p : R → Bool) (f : R → R) → Keeps K (update t p f)
    Keeps-update p f = Keeps-update_by t p f (λ d h. rw (apart _ d) h)

    pub Keeps-update_many : (p : R → Bool) (f : R → R) → Keeps K (update_many t p f)
    Keeps-update_many p f = Keeps-update_many_by t p f (λ d h. rw (apart _ d) h)

  Keeps-open_wallet :
      (id : String) (found : Option WalletAccount) → Keeps K (open_wallet env id found)
  unfolding open_wallet create_wallet adopt_wallet
  Keeps-open_wallet id (some a) = Keeps-pure a
  Keeps-open_wallet id none =
      Keeps-try_catch _ _
        (Keeps-bind _ _ (Keeps-random_uuid K env) λ u. Keeps-create wallets (λ l d. refl) _ _)
        (λ e.
          Keeps-if _ _ _ (Keeps-bind _ _ (Keeps-find _ _) λ o. Keeps-or_throw o e) (Keeps-throw e))

  pub Keeps-get_or_create : (id : String) → Keeps K (get_or_create_wallet_account env id)
  unfolding get_or_create_wallet_account
  Keeps-get_or_create id =
      Keeps-bind _ _ (Keeps-require_profile K id)
        λ p. Keeps-bind _ _ (Keeps-find _ _) λ found. Keeps-open_wallet id found

  Keeps-settle_topup : (source : String) (i : PaymentIntent) → Keeps K (settle_topup env source i)
  unfolding settle_topup credit_topup adopt_topup
  Keeps-settle_topup source i = Keeps-bind _ _ (Keeps-find _ _) λ existing.
      Keeps-option existing _ _
        (Keeps-try_catch _ _
          (Keeps-bind _ _ (Keeps-random_uuid K env) λ id.
            Keeps-bind _ _ (Keeps-create transactions (λ l d. refl) _ _)
              λ t. Keeps-bind _ _ (Keeps-update wallets (λ l d. refl) _ _) λ w. Keeps-pure _)
          (λ e. Keeps-if _ _ _ (Keeps-find _ _) (Keeps-throw e)))
        (λ t. Keeps-pure (some t))

  pub Keeps-mark_intent_failed : (id : String) (v : Value) → Keeps K (mark_intent_failed id v)
  unfolding mark_intent_failed
  Keeps-mark_intent_failed id v = Keeps-update intents (λ l d. refl) _ _

  Keeps-mark_intent_succeeded : (id : String) (v : Value) → Keeps K (mark_intent_succeeded env id v)
  unfolding mark_intent_succeeded
  Keeps-mark_intent_succeeded id v =
      Keeps-bind _ _ (Keeps-now K env) λ time. Keeps-update intents (λ l d. refl) _ _

  pub Keeps-finalize_funding_intent :
      (id : String) (v : Value) (source : String)
      → Keeps K (finalize_funding_intent env id v source)
  unfolding finalize_funding_intent finalize_in_transaction finalize_found
  Keeps-finalize_funding_intent id v source =
      Keeps-bind _ _
        (Keeps-transaction _ (
          Keeps-bind _ _ (Keeps-find _ _) λ found. Keeps-bind _ _ (Keeps-or_throw found _) λ i.
            Keeps-bind _ _ (Keeps-lift _) λ status.
              Keeps-if (is_succeeded status) _ _
                (Keeps-bind _ _ (Keeps-check_verification K env i v) λ u.
                  Keeps-bind _ _ (Keeps-settle_topup source i) λ t.
                    Keeps-bind _ _ (Keeps-mark_intent_succeeded i.id v) λ j.
                      Keeps-bind _ _ (Keeps-remember_card K env (λ l d h. h) i v source)
                        λ u. Keeps-pure _)
                (Keeps-bind _ _ (Keeps-mark_intent_failed i.id v) λ j. Keeps-pure _)))
        λ x.
          Keeps-bind _ _
            (Keeps-option x.0.paystack_reference _ _ (Keeps-random_uuid K env) (λ r. Keeps-pure r))
            λ r. Keeps-pure _

  pub Keeps-finalize_funding_by_reference :
      (reference : String) (v : Value) (source : String)
      → Keeps K (finalize_funding_by_reference env reference v source)
  unfolding finalize_funding_by_reference
  Keeps-finalize_funding_by_reference reference v source = Keeps-bind _ _ (Keeps-find _ _) λ found.
      Keeps-option found _ _ (Keeps-pure tt)
        λ i. Keeps-bind _ _ (Keeps-finalize_funding_intent i.id v source) λ r. Keeps-pure tt

  pub Keeps-mark_withdrawal_succeeded :
      (reference : String) (v : Value) → Keeps K (mark_withdrawal_succeeded env reference v)
  unfolding mark_withdrawal_succeeded
  Keeps-mark_withdrawal_succeeded reference v =
      Keeps-bind _ _ (Keeps-now K env) λ time. Keeps-update_many withdrawals (λ l d. refl) _ _

  Keeps-settle_reversal :
      (d : WalletWithdrawal) (reason : String) → Keeps K (settle_reversal env d reason)
  unfolding settle_reversal credit_reversal
  Keeps-settle_reversal d reason = Keeps-bind _ _ (Keeps-find _ _) λ existing.
      Keeps-option existing _ _
        (Keeps-bind _ _ (Keeps-random_uuid K env) λ id.
          Keeps-bind _ _ (Keeps-create transactions (λ l d. refl) _ _)
            λ t. Keeps-bind _ _ (Keeps-update wallets (λ l d. refl) _ _) λ w. Keeps-pure tt)
        (λ t. Keeps-pure tt)

  pub Keeps-mark_withdrawal_failed_and_reverse :
      (id reason : String) (v : Option Value)
      → Keeps K (mark_withdrawal_failed_and_reverse env id reason v)
  unfolding mark_withdrawal_failed_and_reverse reverse_in_transaction reverse_unless_reversed
      mark_reversed
  Keeps-mark_withdrawal_failed_and_reverse id reason v = Keeps-transaction _ (
      Keeps-bind _ _ (Keeps-find _ _) λ found. Keeps-option found _ _ (Keeps-pure tt) λ d.
        Keeps-if (is_reversed d.status) _ _ (Keeps-pure tt) (
          Keeps-bind _ _ (Keeps-settle_reversal d reason) λ u.
            Keeps-bind _ _ (Keeps-now K env) λ time.
              Keeps-bind _ _ (Keeps-update withdrawals (λ l d. refl) _ _) λ x. Keeps-pure tt))

  pub Keeps-mark_withdrawal_failed_by_reference :
      (reference reason : String) (v : Value)
      → Keeps K (mark_withdrawal_failed_by_reference env reference reason v)
  unfolding mark_withdrawal_failed_by_reference
  Keeps-mark_withdrawal_failed_by_reference reference reason v =
      Keeps-bind _ _ (Keeps-find _ _) λ found.
        Keeps-option found _ _ (Keeps-pure tt)
          λ d. Keeps-mark_withdrawal_failed_and_reverse d.id reason (some v)
