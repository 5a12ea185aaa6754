-- ===== src/Wallet/Ledger/Rows.antt =====
-- Posting a transaction together with the change of the balance keeps the tables sound.
use oyana_backend.Base.{
  String, Bool, true, false, ◌≡◌, refl, some, List, [], ◌∷◌, ◌==◌, eq_iff, arith, Bool-cases, inl,
  inr, ◌∙◌,
}
use oyana_backend.Base.Int.{ℤ, pos, ◌+ℤ◌, ◌-ℤ◌, ◌≤ℤ◌, int_laws}
use oyana_backend.Base.Table.{All, exists, find_first, update_where}
use oyana_backend.Wallet.Schema.{WalletAccount, WalletTransaction, credit, debit, TransactionStatus}
use oyana_backend.Wallet.Ledger.{has_id, has_wallet, signed, ledger, IsSoundWallet, IsOwned}

-- Changing wallets in place leaves their ids.
pub has_wallet-update :
    (k : String) (p : WalletAccount → Bool) (f : WalletAccount → WalletAccount)
    (same : (w : WalletAccount) → (f w).id ≡ w.id) (ws : List WalletAccount)
    → has_wallet k (update_where p f ws) ≡ has_wallet k ws
unfolding update_where
has_wallet-update k p f same [] = refl
has_wallet-update k p f same (w ∷ ws) = elim (Bool-cases (p w)) [
  | inl hit ↦ rw (hit, same w, has_wallet-update k p f same ws)
  | inr miss ↦ rw (miss, has_wallet-update k p f same ws)
]

-- A wallet that is there is found.
pub find_first-of_exists {ℓ} :
    {A : Type ℓ} (p : A → Bool) (xs : List A)
    → exists p xs ≡ true
    → (a : A) × (find_first p xs ≡ some a)
unfolding find_first
find_first-of_exists p [] h = absurd (ground arith)
find_first-of_exists p (x ∷ xs) h = elim (Bool-cases (p x)) [
  | inl hit ↦ (x, rw hit)
  | inr miss ↦ let (a, e) = find_first-of_exists p xs (rw miss at h) in (a, rw miss e)
]

module _ (t : WalletTransaction) (ts : List WalletTransaction) where
  other-wallet :
      (w : WalletAccount)
      → has_id t.wallet_account_id w ≡ false
      → IsSoundWallet ts w
      → IsSoundWallet (t ∷ ts) w
  unfolding ledger
  other-wallet w miss s =
      let balanced : w.balance_minor ≡ ledger w.id (t ∷ ts) =
        ground
          (arith, s.balanced, eq_iff w.id t.wallet_account_id, eq_iff t.wallet_account_id w.id) in
      record { balanced = balanced; solvent = s.solvent }

  module _ (done : t.status ≡ TransactionStatus.completed) where
    ledger-hit :
        (w : WalletAccount)
        → has_id t.wallet_account_id w ≡ true
        → ledger w.id (t ∷ ts) ≡ signed t.direction t.amount_minor (ledger w.id ts)
    unfolding ledger
    ledger-hit w hit =
        ground (arith, eq_iff w.id t.wallet_account_id, eq_iff t.wallet_account_id w.id)

    credit-wallet :
        (x : ℤ) (w : WalletAccount)
        → t.direction ≡ credit
        → t.amount_minor ≡ x
        → pos 0 ≤ℤ x
        → has_id t.wallet_account_id w ≡ true
        → IsSoundWallet ts w
        → IsSoundWallet (t ∷ ts) (record w { balance_minor = w.balance_minor +ℤ x })
    credit-wallet x w d e h hit s = record {
      balanced = rw (ledger-hit w hit, d, e, s.balanced);
      solvent = let nonneg = s.solvent in omega int_laws;
    }

    -- A credit with the balance raised by its amount.
    pub credit-wallets :
        (x : ℤ) (ws : List WalletAccount)
        → t.direction ≡ credit
        → t.amount_minor ≡ x
        → pos 0 ≤ℤ x
        → All (IsSoundWallet ts) ws
        → All (IsSoundWallet (t ∷ ts)) (
            update_where
              (has_id t.wallet_account_id)
              (λ w. record w { balance_minor = w.balance_minor +ℤ x })
              ws)
    unfolding update_where
    credit-wallets x [] d e h s = tt
    credit-wallets x (w ∷ ws) d e h s = (
      elim (Bool-cases (has_id t.wallet_account_id w)) [
        | inl hit ↦ rw hit (credit-wallet x w d e h hit s.0)
        | inr miss ↦ rw miss (other-wallet w miss s.0)
      ],
      credit-wallets x ws d e h s.1,
    )

    debit-wallet :
        (x : ℤ) (w : WalletAccount)
        → t.direction ≡ debit
        → t.amount_minor ≡ x
        → x ≤ℤ w.balance_minor
        → has_id t.wallet_account_id w ≡ true
        → IsSoundWallet ts w
        → IsSoundWallet (t ∷ ts) (record w { balance_minor = w.balance_minor -ℤ x })
    debit-wallet x w d e h hit s = record {
      balanced = rw (ledger-hit w hit, d, e, s.balanced);
      solvent = omega int_laws;
    }

    -- A debit that the ledger covers, with the balance lowered by its amount.
    pub debit-wallets :
        (x : ℤ) (ws : List WalletAccount)
        → t.direction ≡ debit
        → t.amount_minor ≡ x
        → x ≤ℤ ledger t.wallet_account_id ts
        → All (IsSoundWallet ts) ws
        → All (IsSoundWallet (t ∷ ts)) (
            update_where
              (has_id t.wallet_account_id)
              (λ w. record w { balance_minor = w.balance_minor -ℤ x })
              ws)
    unfolding update_where
    debit-wallets x [] d e h s = tt
    debit-wallets x (w ∷ ws) d e h s = (
      elim (Bool-cases (has_id t.wallet_account_id w)) [
        | inl hit ↦
            let same : w.id ≡ t.wallet_account_id = (eq_iff _ _).0 hit in
            let covered : x ≤ℤ w.balance_minor = rw (s.0.balanced, same) h in
            rw hit (debit-wallet x w d e covered hit s.0)
        | inr miss ↦ rw miss (other-wallet w miss s.0)
      ],
      debit-wallets x ws d e h s.1,
    )

-- A new wallet has no transactions, since each of them belongs to a wallet that was there.
pub ledger-new :
    (k : String) (ws : List WalletAccount) (ts : List WalletTransaction)
    → has_wallet k ws ≡ false
    → All (λ t. IsOwned ws t.wallet_account_id) ts
    → ledger k ts ≡ pos 0
unfolding ledger
ledger-new k ws [] new h = refl
ledger-new k ws (t ∷ ts) new h = elim (Bool-cases (t.wallet_account_id == k)) [
  | inl hit ↦
      let same : t.wallet_account_id ≡ k = (eq_iff _ _).0 hit in
      let old : has_wallet k ws ≡ true = rw (← same) h.0 in absurd (cc)
  | inr miss ↦ rw miss (ledger-new k ws ts new h.1)
]

-- What belongs to a wallet still does, after wallets were changed in place.
pub IsOwned-update :
    (p : WalletAccount → Bool) (f : WalletAccount → WalletAccount) (k : String)
    (same : (w : WalletAccount) → (f w).id ≡ w.id) (ws : List WalletAccount)
    → IsOwned ws k
    → IsOwned (update_where p f ws) k
IsOwned-update p f k same ws h = has_wallet-update k p f same ws ∙ h

pub IsOwned-cons :
    (w : WalletAccount) (k : String) (ws : List WalletAccount) → IsOwned ws k → IsOwned (w ∷ ws) k
IsOwned-cons w k ws h = ground arith
