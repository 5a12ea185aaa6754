-- ===== src/Wallet/Ledger/Posting.antt =====
-- A transaction posted together with the change of the balance, and a new wallet.
use oyana_backend.Base.{
  String, Bool, false, ◌||◌, ◌==◌, ◌≡◌, refl, List, [], ◌∷◌, Bool-cases, inl, inr, arith,
}
use oyana_backend.Base.Int.{ℤ, pos, ◌≤ℤ◌, ◌+ℤ◌, ◌-ℤ◌}
use oyana_backend.Base.Table.{All, All-map, exists, update_where}
use oyana_backend.Wallet.Schema.{WalletAccount, WalletTransaction, TransactionStatus, credit, debit}
use oyana_backend.Db.{Db, wallets, transactions}
use oyana_backend.Act.{Act, World, create, update, ◌>>=◌}
use oyana_backend.Act.Keeps.{Keeps}
use oyana_backend.Wallet.Ledger.{IsOwned, IsSoundWallet, has_id, ledger, has_reference}
use oyana_backend.Wallet.Ledger.Rows.{
  IsOwned-update, credit-wallets, debit-wallets, find_first-of_exists,
}
use oyana_backend.Wallet.Ledger.Named.{IsNamed}
use oyana_backend.Wallet.Ledger.Writes.{IsFact, holds_wallet, names_references, Fact, Knows}

abbrev pub raise_balance : ℤ → WalletAccount → WalletAccount
raise_balance x w = record w { balance_minor = w.balance_minor +ℤ x }

abbrev pub lower_balance : ℤ → WalletAccount → WalletAccount
lower_balance x w = record w { balance_minor = w.balance_minor -ℤ x }

-- A row that clashes with none has a new reference.
fresh-of_new :
    (id r : String) (ts : List WalletTransaction)
    → exists (λ t. t.id == id || t.reference == r) ts ≡ false
    → exists (has_reference r) ts ≡ false
fresh-of_new id r [] h = refl
fresh-of_new id r (t ∷ ts) h = ground (arith, fresh-of_new id r ts)

module _ (row : WalletTransaction) (named : IsNamed row) where
  IsFact-posted :
      (f : WalletAccount → WalletAccount) (k : Fact) (d : Db)
      → ((w : WalletAccount) → (f w).id ≡ w.id)
      → IsFact d.wallets d.transactions k
      → IsFact (update_where (has_id row.wallet_account_id) f d.wallets) (row ∷ d.transactions) k
  IsFact-posted f (holds_wallet k) d same h =
      IsOwned-update (has_id row.wallet_account_id) f k same d.wallets h
  IsFact-posted f names_references d same h = (named, h)

module _ (ks : List Fact) (row : WalletTransaction)
    (done : row.status ≡ TransactionStatus.completed) (named : IsNamed row) where
  abbrev posted : (WalletAccount → WalletAccount) → Db → Db
  posted f d = record d {
    wallets = update_where (has_id row.wallet_account_id) f d.wallets;
    transactions = row ∷ d.transactions;
  }

  posted-Knows :
      (f : WalletAccount → WalletAccount) (d : Db)
      → ((w : WalletAccount) → (f w).id ≡ w.id)
      → Knows ks d
      → IsOwned d.wallets row.wallet_account_id
      → exists (has_reference row.reference) d.transactions ≡ false
      → All (IsSoundWallet (row ∷ d.transactions)) (posted f d).wallets
      → Knows ks (posted f d)
  posted-Knows f d same h owned fresh sound =
      let still = λ (k : String) (o : IsOwned d.wallets k).
        IsOwned-update (has_id row.wallet_account_id) f k same d.wallets o in
      (
        record {
          wallets_sound = sound;
          transactions_owned = (
            still row.wallet_account_id owned,
            All-map (λ t. still t.wallet_account_id) d.transactions h.0.transactions_owned,
          );
          references_distinct = (fresh, h.0.references_distinct);
          intents_sound =
              All-map
                (λ i s. record { owned = still i.wallet_account_id s.owned; positive = s.positive })
                d.intents h.0.intents_sound;
          withdrawals_sound =
              All-map
                (λ i s. record { owned = still i.wallet_account_id s.owned; positive = s.positive })
                d.withdrawals h.0.withdrawals_sound;
        },
        All-map (λ k. IsFact-posted row named f k d same) ks h.1,
      )

  module _ {B : Type 0} (id : String) (f : WalletTransaction → Act B) where
    abbrev clashes : WalletTransaction → Bool
    clashes t = t.id == id || t.reference == row.reference

    post-at :
        (g : WalletAccount → WalletAccount) (w : World)
        → Knows ks w.db
        → IsOwned w.db.wallets row.wallet_account_id
        → (exists (has_reference row.reference) w.db.transactions ≡ false
            → Knows ks (posted g w.db))
        → ((r : WalletTransaction) → Keeps (Knows ks) (f r))
        → Knows ks
            ((create transactions clashes row >>= λ r.
                update wallets (has_id row.wallet_account_id) g >>= λ _. f r)
              w).1.db
    unfolding ◌>>=◌ create update
    post-at g w h owned h' kf = elim (Bool-cases (exists clashes w.db.transactions)) [
      | inl taken ↦ rw taken h
      | inr new ↦
          let (a, found) = find_first-of_exists (has_id row.wallet_account_id) w.db.wallets owned in
          rw new
            (rw found ((kf row).at _ (h' (fresh-of_new id row.reference w.db.transactions new))))
    ]

    pub Keeps-credit :
        (x : ℤ)
        → row.direction ≡ credit
        → row.amount_minor ≡ x
        → pos 0 ≤ℤ x
        → ((d : Db) → Knows ks d → IsOwned d.wallets row.wallet_account_id)
        → ((r : WalletTransaction) → Keeps (Knows ks) (f r))
        → Keeps (Knows ks) (
            create transactions clashes row >>= λ r.
            update wallets (has_id row.wallet_account_id) (raise_balance x) >>= λ _. f r)
    Keeps-credit x d e nonneg owned kf = record {
      at = λ w h.
          post-at (raise_balance x) w h (owned w.db h)
            (λ fresh.
              posted-Knows (raise_balance x) w.db (λ w. refl) h (owned w.db h) fresh
                (credit-wallets row w.db.transactions done x w.db.wallets d e nonneg
                  h.0.wallets_sound))
            kf;
    }

    -- a debit that the ledger covers
    pub debit-at :
        (x : ℤ) (w : World)
        → row.direction ≡ debit
        → row.amount_minor ≡ x
        → x ≤ℤ ledger row.wallet_account_id w.db.transactions
        → Knows ks w.db
        → IsOwned w.db.wallets row.wallet_account_id
        → ((r : WalletTransaction) → Keeps (Knows ks) (f r))
        → Knows ks
            ((create transactions clashes row >>= λ r.
                update wallets (has_id row.wallet_account_id) (lower_balance x) >>= λ _. f r)
              w).1.db
    debit-at x w d e covered h owned kf =
        post-at (lower_balance x) w h owned
          (λ fresh.
            posted-Knows (lower_balance x) w.db (λ w. refl) h owned fresh
              (debit-wallets row w.db.transactions done x w.db.wallets d e covered
                h.0.wallets_sound))
          kf
