-- ===== src/Wallet/Ledger/Writes.antt =====
-- Which single writes keep the wallet tables sound. `Knows ks` adds the facts `ks`: that a wallet is
-- there, or that every transaction is named after what it is about.
use oyana_backend.Base.{String, Bool, ◌≡◌, List}
use oyana_backend.Base.Int.{pos, ◌≤ℤ◌}
use oyana_backend.Base.Table.{All, update_where, update_where-All}
use oyana_backend.Wallet.Schema.{
  WalletAccount, WalletTransaction, PaymentIntent, WalletWithdrawal, WalletSavedBankAccount,
  WalletIdempotencyKey,
}
use oyana_backend.Db.{Db, keys, bank_accounts, intents, withdrawals}
use oyana_backend.Act.{create, update}
use oyana_backend.Act.Keeps.{Keeps}
use oyana_backend.Act.Writes.{Keeps-create_by, Keeps-update_by}
use oyana_backend.Wallet.Ledger.Named.{IsNamed}
use oyana_backend.Wallet.Ledger.{IsSound, IsOwned, IsSoundIntent, IsSoundWithdrawal}

pub data Fact : Type 0 where
  holds_wallet : String → Fact
  names_references : Fact

abbrev pub IsFact : List WalletAccount → List WalletTransaction → Fact → Type 0
IsFact ws ts (holds_wallet k) = IsOwned ws k
IsFact ws ts names_references = All IsNamed ts

abbrev pub Knows : List Fact → Db → Type 0
Knows ks d = IsSound d × All (IsFact d.wallets d.transactions) ks

module _ (ks : List Fact) where
  -- saved accounts and idempotency keys hold no money
  pub Keeps-create_key :
      (clashes : WalletIdempotencyKey → Bool) (row : WalletIdempotencyKey)
      → Keeps (Knows ks) (create keys clashes row)
  Keeps-create_key clashes row = Keeps-create_by keys clashes row (λ d new h. h)

  pub Keeps-update_key :
      (p : WalletIdempotencyKey → Bool) (f : WalletIdempotencyKey → WalletIdempotencyKey)
      → Keeps (Knows ks) (update keys p f)
  Keeps-update_key p f = Keeps-update_by keys p f (λ d h. h)

  pub Keeps-create_bank_account :
      (clashes : WalletSavedBankAccount → Bool) (row : WalletSavedBankAccount)
      → Keeps (Knows ks) (create bank_accounts clashes row)
  Keeps-create_bank_account clashes row = Keeps-create_by bank_accounts clashes row (λ d new h. h)

  pub Keeps-update_bank_account :
      (p : WalletSavedBankAccount → Bool) (f : WalletSavedBankAccount → WalletSavedBankAccount)
      → Keeps (Knows ks) (update bank_accounts p f)
  Keeps-update_bank_account p f = Keeps-update_by bank_accounts p f (λ d h. h)

  -- an intent that keeps its wallet and its amount
  pub Keeps-update_intent :
      (p : PaymentIntent → Bool) (f : PaymentIntent → PaymentIntent)
      → ((i : PaymentIntent) → (f i).wallet_account_id ≡ i.wallet_account_id)
      → ((i : PaymentIntent) → (f i).amount_minor ≡ i.amount_minor)
      → Keeps (Knows ks) (update intents p f)
  Keeps-update_intent p f same_wallet same_amount = Keeps-update_by intents p f (λ d h. (
    record {
      wallets_sound = h.0.wallets_sound;
      transactions_owned = h.0.transactions_owned;
      references_distinct = h.0.references_distinct;
      intents_sound =
          update_where-All (IsSoundIntent d.wallets) p f d.intents
            (λ i s hit. record {
              owned = rw (same_wallet i) s.owned;
              positive = rw (same_amount i) s.positive;
            })
            h.0.intents_sound;
      withdrawals_sound = h.0.withdrawals_sound;
    },
    h.1,
  ))

  pub withdrawals-Knows :
      (p : WalletWithdrawal → Bool) (f : WalletWithdrawal → WalletWithdrawal)
      (same_wallet : (i : WalletWithdrawal) → (f i).wallet_account_id ≡ i.wallet_account_id)
      (same_amount : (i : WalletWithdrawal) → (f i).amount_minor ≡ i.amount_minor) (d : Db)
      → Knows ks d
      → Knows ks (record d { withdrawals = update_where p f d.withdrawals })
  withdrawals-Knows p f same_wallet same_amount d h = (
    record {
      wallets_sound = h.0.wallets_sound;
      transactions_owned = h.0.transactions_owned;
      references_distinct = h.0.references_distinct;
      intents_sound = h.0.intents_sound;
      withdrawals_sound =
          update_where-All (IsSoundWithdrawal d.wallets) p f d.withdrawals
            (λ i s hit. record {
              owned = rw (same_wallet i) s.owned;
              positive = rw (same_amount i) s.positive;
            })
            h.0.withdrawals_sound;
    },
    h.1,
  )

  -- an intent of a known wallet
  pub Keeps-create_intent_row :
      (clashes : PaymentIntent → Bool) (row : PaymentIntent)
      → pos 1 ≤ℤ row.amount_minor
      → ((d : Db) → Knows ks d → IsOwned d.wallets row.wallet_account_id)
      → Keeps (Knows ks) (create intents clashes row)
  Keeps-create_intent_row clashes row positive owned =
      Keeps-create_by intents clashes row (λ d new h. (
        record {
          wallets_sound = h.0.wallets_sound;
          transactions_owned = h.0.transactions_owned;
          references_distinct = h.0.references_distinct;
          intents_sound = (record { owned = owned d h; positive = positive }, h.0.intents_sound);
          withdrawals_sound = h.0.withdrawals_sound;
        },
        h.1,
      ))

  pub Keeps-create_withdrawal_row :
      (clashes : WalletWithdrawal → Bool) (row : WalletWithdrawal)
      → pos 1 ≤ℤ row.amount_minor
      → ((d : Db) → Knows ks d → IsOwned d.wallets row.wallet_account_id)
      → Keeps (Knows ks) (create withdrawals clashes row)
  Keeps-create_withdrawal_row clashes row positive owned =
      Keeps-create_by withdrawals clashes row (λ d new h. (
        record {
          wallets_sound = h.0.wallets_sound;
          transactions_owned = h.0.transactions_owned;
          references_distinct = h.0.references_distinct;
          intents_sound = h.0.intents_sound;
          withdrawals_sound =
              (record { owned = owned d h; positive = positive }, h.0.withdrawals_sound);
        },
        h.1,
      ))
